-- ===== src/Fuentes/Tests.antt =====
-- A small file through the cache and the ring of the player.
use taek_os.Prelude.{ℕ, ◌%◌, ◌≡◌, refl, true, none, [], ◌∷◌, length, get_or, replicate, arith}
use taek_os.Mp4.Abrir.{cero}
use taek_os.Mp4.Fuente.{Leido, leidos, negativa, mp4_abrir_fuente}
use taek_os.Mp4.Tests.{disco}
use taek_os.Fuentes.Fiel.{tramo, IsFiel, directa, Cualquiera, directa-IsFiel, ninguno-IsDiscreto}
use taek_os.Fuentes.Cache.{
  ra_cero, vacia, Cache, cache_buscar, pedido, traer, copiar, preparar_ra, cache_fuente_leer,
}
use taek_os.Fuentes.CacheValida.{CacheIsFiel}
use taek_os.Fuentes.CacheFiel.{cache-IsFiel}
use taek_os.Fuentes.Anillo.{
  Anillo, buscar_lugar, menor_leido, anillo_min_leido, anillo_buscar, anillo_iniciar,
}
use taek_os.Fuentes.Consumo.{anillo_rellenar, llenar_hasta, recorrer_anillo, anillo_leer}
use taek_os.Fuentes.AnilloVivo.{AnilloIsVivo}
use taek_os.Fuentes.AnilloFiel.{Rellenada}
use taek_os.Fuentes.AnilloLeer.{anillo-IsFiel}
use taek_os.Fuentes.Demux.{abrir_fuente-mismo}

abbrev numerado : ℕ → ℕ
numerado i = i % 256

abbrev cache : Cache (Unit {0})
cache = record {
  mundo = tt;
  tamano = 600;
  ventana = 512;
  reemplazo = 0;
  lecturas = 0;
  aciertos = 0;
  fallos = 0;
  adelantos = 0;
  ranuras = vacia ∷ vacia ∷ [];
  ra = ra_cero ∷ ra_cero ∷ ra_cero ∷ ra_cero ∷ [];
}

abbrev leida : Leido × Cache (Unit {0})
leida = cache_fuente_leer (directa numerado) none cache 0 510 4

abbrev releida : Leido × Cache (Unit {0})
releida = cache_fuente_leer (directa numerado) none leida.1 1 512 2

codigo_cache :
    (leida.0 ≡ leidos (254 ∷ 255 ∷ 0 ∷ 1 ∷ []))
    × (leida.1.fallos ≡ 1)
    × (releida.0 ≡ leidos (0 ∷ 1 ∷ []))
    × (releida.1.aciertos ≡ 1)
    × ((cache_fuente_leer (directa numerado) none cache 0 598 4).0 ≡ negativa 1)
unfolding cache_fuente_leer copiar traer pedido preparar_ra cache_buscar tramo
codigo_cache = (refl, refl, refl, refl, refl)

abbrev anillo : Anillo (Unit {0})
anillo = anillo_iniciar tt 600

abbrev servida : Leido × Anillo (Unit {0})
servida = anillo_leer (directa numerado) none anillo 1 510 4

codigo_anillo :
    (servida.0 ≡ leidos (254 ∷ 255 ∷ 0 ∷ 1 ∷ []))
    × (servida.1.fallos ≡ 1)
    × (servida.1.reposiciones ≡ 1)
    × (servida.1.productor_off ≡ 600)
    × (servida.1.leido ≡ 0 ∷ 514 ∷ 0 ∷ 0 ∷ [])
unfolding anillo_leer recorrer_anillo llenar_hasta anillo_rellenar anillo_buscar anillo_min_leido
    menor_leido buscar_lugar anillo_iniciar tramo replicate
codigo_anillo = (refl, refl, refl, refl, refl)

cache-IsFiel_example :
    IsFiel ⊥ numerado 600
      (CacheIsFiel numerado 600 Cualquiera)
      (cache_fuente_leer (directa numerado) none)
cache-IsFiel_example =
    cache-IsFiel ⊥ numerado 600 Cualquiera (directa numerado) none (directa-IsFiel ⊥ numerado 600)
      (ninguno-IsDiscreto ⊥ Cualquiera)

anillo-IsFiel_example :
    ((w : Unit {0}) → Cualquiera w → AnilloIsVivo numerado 600 Cualquiera (anillo_iniciar w 600))
    × ((k : ℕ) (a : Anillo (Unit {0}))
        → AnilloIsVivo numerado 600 Cualquiera a
        → Rellenada ⊥ numerado 600 Cualquiera
            (directa numerado)
            (directa-IsFiel ⊥ numerado 600)
            (anillo_rellenar (directa numerado) k a))
    × IsFiel ⊥ numerado 600
        (AnilloIsVivo numerado 600 Cualquiera)
        (anillo_leer (directa numerado) none)
anillo-IsFiel_example =
    anillo-IsFiel ⊥ numerado 600 Cualquiera (directa numerado) none (directa-IsFiel ⊥ numerado 600)
      (ninguno-IsDiscreto ⊥ Cualquiera)

-- The ring over the cache, against the file itself.
abbrev en_disco : ℕ → ℕ
en_disco i = get_or disco i 0

abbrev cacheada : Cache (Unit {0})
cacheada = record cache { tamano = length disco }

cacheada-IsFiel : CacheIsFiel en_disco (length disco) Cualquiera cacheada
cacheada-IsFiel = record {
  mundo = tt;
  tam = refl;
  dos = refl;
  buenas = (
    (omega arith, λ h. absurd (omega (arith, h))),
    ((omega arith, λ h. absurd (omega (arith, h))), tt),
  );
  ancha = omega arith;
  cabe = omega arith;
  anchas = (
    λ h. absurd (h refl),
    (λ h. absurd (h refl), (λ h. absurd (h refl), (λ h. absurd (h refl), tt))),
  );
}

abrir_fuente-mismo_example :
    (mp4_abrir_fuente
      (anillo_leer (cache_fuente_leer (directa en_disco) none) none)
      (length disco)
      4096
      true
      cero
      (anillo_iniciar cacheada (length disco))).0
    ≡ (mp4_abrir_fuente (directa en_disco) (length disco) 4096 true cero tt).0
abrir_fuente-mismo_example =
    let bytes = length disco in
    let d = directa-IsFiel ⊥ en_disco bytes in
    let dentro =
      cache-IsFiel ⊥ en_disco bytes Cualquiera (directa en_disco) none d
        (ninguno-IsDiscreto ⊥ Cualquiera) in
    let Vale = CacheIsFiel en_disco bytes Cualquiera in
    let lectura = cache_fuente_leer (directa en_disco) none in
    let fuera =
      anillo-IsFiel ⊥ en_disco bytes Vale lectura none dentro (ninguno-IsDiscreto ⊥ Vale) in
    abrir_fuente-mismo en_disco bytes 4096 (AnilloIsVivo en_disco bytes Vale)
      (anillo_leer lectura none) fuera.2 Cualquiera (directa en_disco) d true cero
      (anillo_iniciar cacheada bytes) tt (fuera.0 cacheada cacheada-IsFiel) tt
