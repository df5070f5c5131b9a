-- ===== src/Trabajos/Tests.antt =====
-- Two processors on a batch of trabajos.c.
use taek_os.Prelude.{
  true, false, ◌≡◌, ◌≤◌, ltb, if◌then◌else◌, refl, List, [], ◌∷◌, replicate, arith,
}
use taek_os.Trabajos.Defs.{
  Suceso, de_cpu, cancela, trabajos_preparar, trabajos_terminados, trabajos_cancelar, empezar,
  avanzar, paso, correr,
}
use taek_os.Trabajos.Cuentas.{cuantas}
use taek_os.Trabajos.Una.{correr-una_vez, terminados-todas}
use taek_os.Trabajos.Sola.{llamadas, llamadas-terminados}

-- Both take a region before either runs it, and the second ends first.
abbrev a_la_vez : List Suceso
a_la_vez =
    de_cpu 0 ∷ de_cpu 1 ∷ de_cpu 1 ∷ de_cpu 0 ∷ de_cpu 1 ∷ de_cpu 1 ∷ de_cpu 0 ∷ de_cpu 0 ∷ []

orden : (correr a_la_vez (empezar 2 2)).lote.corridas ≡ 1 ∷ 0 ∷ []
unfolding correr paso avanzar empezar trabajos_preparar replicate
orden = refl

-- The second finds the batch cancelled.
cancelado : (correr (cancela ∷ a_la_vez) (empezar 2 2)).lote.saltadas ≡ 1 ∷ 0 ∷ []
unfolding correr paso avanzar empezar trabajos_preparar trabajos_cancelar replicate
cancelado = refl

correr-una_vez_example :
    cuantas 1 (correr a_la_vez (empezar 2 2)).lote.corridas ≤ (if ltb 1 2 then 1 else 0)
correr-una_vez_example = correr-una_vez a_la_vez 2 2 1 (omega arith) (omega arith)

terminan : trabajos_terminados (correr a_la_vez (empezar 2 2)).lote ≡ true
unfolding correr paso avanzar empezar trabajos_preparar trabajos_terminados replicate
terminan = refl

siguen : (correr a_la_vez (empezar 2 2)).lote.cancelado ≡ false
unfolding correr paso avanzar empezar trabajos_preparar replicate
siguen = refl

terminados-todas_example : cuantas 1 (correr a_la_vez (empezar 2 2)).lote.corridas ≡ 1
terminados-todas_example =
    terminados-todas a_la_vez 2 2 1 (omega arith) (omega arith) (omega arith) terminan siguen

llamadas-terminados_example : trabajos_terminados (correr (llamadas 3) (empezar 3 4)).lote ≡ true
llamadas-terminados_example = llamadas-terminados 3 3 (omega arith)
