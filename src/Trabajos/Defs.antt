-- ===== src/Trabajos/Defs.antt =====
-- The batch of nucleo/base/trabajos.c and the processors that take its regions.
use taek_os.Prelude.{
  ℕ, ◌+◌, ◌%◌, ◌^◌, Bool, true, false, not, ◌||◌, List, [], ◌∷◌, ◌==◌, ltb, if◌then◌else◌, get_or,
  set, replicate, length,
}

-- `trabajos_lote` less its clocks. `corridas` records the regions that `funcion` was called with and `saltadas` those
-- that a cancelled batch left out, the last one first.
pub record Lote : Type 0 where
  pub total : ℕ
  pub siguiente : ℕ
  pub completados : ℕ
  pub cancelado : Bool
  pub activo : Bool
  pub ejecutados : List ℕ
  pub corridas : List ℕ
  pub saltadas : List ℕ

-- Where a processor is in `trabajos_tomar`: outside, before it takes an index, with the index of a region, or after
-- the call and before it counts the region.
pub data Fase : Type 0 where
  fuera dentro : Fase
  con corrido : ℕ → Fase

pub record Sistema : Type 0 where
  pub lote : Lote
  pub fases : List Fase

unfoldable pub trabajos_preparar : ℕ → Lote
trabajos_preparar n = record {
  total = n;
  siguiente = 0;
  completados = 0;
  cancelado = false;
  activo = true;
  ejecutados = replicate 4 0;
  corridas = [];
  saltadas = [];
}

-- `p` processors, none of them in `trabajos_tomar`.
unfoldable pub empezar : ℕ → ℕ → Sistema
empezar n p = record { lote = trabajos_preparar n; fases = replicate p fuera }

abbrev pub pedir : Lote → Lote
pedir l = record l { siguiente = (l.siguiente + 1) % 2 ^ 32 }

abbrev pub llamar : Lote → ℕ → ℕ → Lote
llamar l cpu i = if l.cancelado then record l { saltadas = i ∷ l.saltadas } else record l {
  corridas = i ∷ l.corridas;
  ejecutados = set l.ejecutados cpu ((get_or l.ejecutados cpu 0 + 1) % 2 ^ 32);
}

abbrev pub completar : Lote → Lote
completar l = record l { completados = (l.completados + 1) % 2 ^ 32 }

abbrev pub en_fase : Sistema → ℕ → Fase → Lote → Sistema
en_fase s cpu f l = record { lote = l; fases = set s.fases cpu f }

-- What the processor does next: one access to what the processors share, with what follows it up to the next one.
unfoldable pub avanzar : Sistema → ℕ → Fase → Sistema
avanzar s cpu fuera =
    if not (ltb cpu 4) || not s.lote.activo then s else en_fase s cpu dentro s.lote
avanzar s cpu dentro =
    en_fase s cpu (if ltb s.lote.siguiente s.lote.total then con s.lote.siguiente else fuera)
      (pedir s.lote)
avanzar s cpu (con i) = en_fase s cpu (corrido i) (llamar s.lote cpu i)
avanzar s cpu (corrido i) = en_fase s cpu fuera (completar s.lote)

unfoldable pub trabajos_cancelar : Lote → Lote
trabajos_cancelar l = record l { cancelado = true }

unfoldable pub trabajos_terminados : Lote → Bool
trabajos_terminados l = l.completados == l.total

pub data Suceso : Type 0 where
  de_cpu : ℕ → Suceso
  cancela : Suceso

unfoldable pub paso : Suceso → Sistema → Sistema
paso (de_cpu cpu) s =
    if ltb cpu (length s.fases) then avanzar s cpu (get_or s.fases cpu fuera) else s
paso cancela s = record s { lote = trabajos_cancelar s.lote }

-- The steps of the processors in the order in which they come.
unfoldable pub correr : List Suceso → Sistema → Sistema
correr [] s = s
correr (e ∷ es) s = correr es (paso e s)
