-- ===== src/Fuentes/AnilloVivo.antt =====
-- What anillo_almacenamiento.c keeps up: the ring holds a part of the file, and the producer goes on behind it.
use taek_os.Prelude.{
  ℕ, zero, suc, ◌+◌, ◌-◌, ◌%◌, ◌≤◌, ◌<◌, false, List, ◌≡◌, refl, sym, ap, ◌∙◌, subst, si, get_or,
  set, get_or-set_self, length, length-set, ◌==◌, length-replicate, arith,
}
use taek_os.Fuentes.Fiel.{tramo}
use taek_os.Fuentes.Anillo.{listo, Bloque, bloque_cero, vaciado, Anillo, inicio, anillo_iniciar}
use taek_os.Fuentes.Cadena.{
  Lleno, lugar, Cadena, Cadena-Igual, Igual-set_ne, Igual-set, Cadena-snoc, Cadena-corrida,
}

-- The fields of a ring over a file of `tamano` bytes that it holds from `ini` on.
pub record Vivo {W : Type 0} (archivo : ℕ → ℕ) (tamano : ℕ) (Vale : W → Type 0) (mundo : W)
    (tam bloque : ℕ) (l : List Bloque) (productor cola cabeza cantidad ini : ℕ) : Type 0 where
  pub vale : Vale mundo
  pub tam_es : tam ≡ tamano
  pub bloque_es : bloque ≡ 131072
  pub ocho : length l ≡ 8
  pub cabe : cabeza < 8
  pub caben : cantidad ≤ 8
  pub cola_es : cola ≡ (cabeza + cantidad) % 8
  pub cadena : Cadena archivo l cabeza cantidad 0 ini productor
  pub corto : productor ≤ tamano

module _ {W : Type 0} (archivo : ℕ → ℕ) (tamano : ℕ) (Vale : W → Type 0) where
  abbrev pub VivoDesde : ℕ → Anillo W → Type 0
  VivoDesde ini a =
      Vivo archivo tamano Vale a.mundo a.tamano a.bloque_bytes a.bloques a.productor_off a.cola
        a.cabeza a.cantidad ini

  abbrev pub AnilloIsVivo : Anillo W → Type 0
  AnilloIsVivo a = (ini : ℕ) × VivoDesde ini a

  pub iniciar-IsVivo : (w : W) → Vale w → AnilloIsVivo (anillo_iniciar w tamano)
  unfolding anillo_iniciar
  iniciar-IsVivo w v = (
    0,
    record {
      vale = v;
      tam_es = refl;
      bloque_es = refl;
      ocho = length-replicate 8 bloque_cero;
      cabe = omega arith;
      caben = omega arith;
      cola_es = omega arith;
      cadena = refl;
      corto = omega arith;
    },
  )

  pub inicio_es : (a : Anillo W) (ini : ℕ) → VivoDesde ini a → inicio a ≡ ini
  inicio_es a ini v = inicio_de a ini a.cantidad v.cabe refl v.cadena
    where
      inicio_de :
          (a : Anillo W) (ini k : ℕ)
          → a.cabeza < 8
          → a.cantidad ≡ k
          → Cadena archivo a.bloques a.cabeza k 0 ini a.productor_off
          → inicio a ≡ ini
      inicio_de a ini zero p e h = ground (arith, e, h)
      inicio_de a ini (suc k) p e h =
          si (λ x. x ≡ ini) (a.cantidad == 0) _ _ (λ z. absurd (ground (arith, e, z)))
            (λ z. ap (λ j. (get_or a.bloques j bloque_cero).offset) (omega (arith, p)) ∙ h.1)

  -- The oldest slot leaves.
  pub soltar-Vivo :
      (mundo : W) (tam bloque : ℕ) (l : List Bloque) (productor cola cabeza cantidad ini : ℕ)
      → 0 < cantidad
      → Vivo archivo tamano Vale mundo tam bloque l productor cola cabeza cantidad ini
      → (otro : ℕ) × Vivo archivo tamano Vale mundo tam bloque
          (set l cabeza (vaciado (get_or l cabeza bloque_cero)))
          productor
          cola
          ((cabeza + 1) % 8)
          (cantidad - 1)
          otro
  soltar-Vivo mundo tam bloque l productor cola cabeza zero ini p v = absurd (omega (arith, p))
  soltar-Vivo mundo tam bloque l productor cola cabeza (suc k) ini p v = (
    ini + (lugar l cabeza 0).bytes,
    record {
      vale = v.vale;
      tam_es = v.tam_es;
      bloque_es = v.bloque_es;
      ocho = length-set l cabeza _ ∙ v.ocho;
      cabe = omega arith;
      caben = omega (arith, v.caben);
      cola_es = omega (arith, v.cola_es);
      cadena =
          subst
            (λ n.
              Cadena archivo (set l cabeza (vaciado (get_or l cabeza bloque_cero)))
                ((cabeza + 1) % 8) n 0 (ini + (lugar l cabeza 0).bytes) productor)
            (resta k)
            (Cadena-Igual archivo l (set l cabeza (vaciado (get_or l cabeza bloque_cero)))
              ((cabeza + 1) % 8) k 0 _ productor
              (λ j a b.
                Igual-set_ne archivo l cabeza _ (vaciado (get_or l cabeza bloque_cero))
                  (omega (arith, b, v.caben, v.cabe)))
              (Cadena-corrida archivo l cabeza k 0 _ productor v.cadena.2));
      corto = v.corto;
    },
  )
    where
      resta : (k : ℕ) → k ≡ suc k - 1
      resta k = omega arith

  abbrev pub nuevo : ℕ → ℕ → List ℕ → Bloque
  nuevo offset bytes datos = record {
    offset = offset;
    bytes = bytes;
    estado = listo;
    datos = datos;
    tocado = false;
  }

  -- The slot behind the window takes the next part of the file.
  pub llenar-Vivo :
      (mundo w : W) (tam bloque : ℕ) (l : List Bloque) (productor cola cabeza cantidad ini n : ℕ)
      (datos : List ℕ)
      → cantidad < 8
      → Vivo archivo tamano Vale mundo tam bloque l productor cola cabeza cantidad ini
      → Vale w
      → 0 < n
      → n ≤ 131072
      → productor + n ≤ tamano
      → datos ≡ tramo archivo productor n
      → Vivo archivo tamano Vale w tam bloque
          (set l cola (nuevo productor n datos))
          (productor + n)
          ((cola + 1) % 8)
          cabeza
          (cantidad + 1)
          ini
  llenar-Vivo mundo w tam bloque l productor cola cabeza cantidad ini n datos p v z a b c e =
      record {
        vale = z;
        tam_es = v.tam_es;
        bloque_es = v.bloque_es;
        ocho = length-set l cola _ ∙ v.ocho;
        cabe = v.cabe;
        caben = omega (arith, p);
        cola_es = omega (arith, v.cola_es);
        cadena =
            subst
              (λ k.
                Cadena archivo (set l cola (nuevo productor n datos)) cabeza k 0 ini
                  (productor + n))
              (suma cantidad)
              (Cadena-snoc archivo (set l cola (nuevo productor n datos)) cabeza cantidad 0 cantidad
                ini productor (nuevo productor n datos)
                (Cadena-Igual archivo l (set l cola (nuevo productor n datos)) cabeza cantidad 0 ini
                  productor
                  (λ j x y.
                    Igual-set_ne archivo l cola _ (nuevo productor n datos)
                      (omega (arith, y, p, v.cola_es, v.cabe)))
                  v.cadena)
                (omega arith)
                (ap (λ j. get_or (set l cola (nuevo productor n datos)) j bloque_cero)
                    (sym v.cola_es)
                  ∙ get_or-set_self l cola (nuevo productor n datos) bloque_cero
                      (omega (arith, v.cola_es, v.ocho)))
                (refl, a, b, e) refl);
        corto = c;
      }
    where
      suma : (k : ℕ) → suc k ≡ k + 1
      suma k = omega arith

  -- A slot outside the window is emptied, by a read that fails.
  pub fallar-Vivo :
      (mundo w : W) (tam bloque : ℕ) (l : List Bloque) (productor cola cabeza cantidad ini : ℕ)
      (b : Bloque)
      → cantidad < 8
      → Vivo archivo tamano Vale mundo tam bloque l productor cola cabeza cantidad ini
      → Vale w
      → Vivo archivo tamano Vale w tam bloque (set l cola b) productor cola cabeza cantidad ini
  fallar-Vivo mundo w tam bloque l productor cola cabeza cantidad ini b p v z = record {
    vale = z;
    tam_es = v.tam_es;
    bloque_es = v.bloque_es;
    ocho = length-set l cola b ∙ v.ocho;
    cabe = v.cabe;
    caben = v.caben;
    cola_es = v.cola_es;
    cadena =
        Cadena-Igual archivo l (set l cola b) cabeza cantidad 0 ini productor
          (λ j x y. Igual-set_ne archivo l cola _ b (omega (arith, y, p, v.cola_es, v.cabe)))
          v.cadena;
    corto = v.corto;
  }

  -- A slot gets other marks.
  pub marcar-Vivo :
      (mundo : W) (tam bloque : ℕ) (l : List Bloque) (productor cola cabeza cantidad ini s : ℕ)
      (b : Bloque)
      → s < 8
      → (Lleno archivo (get_or l s bloque_cero) → Lleno archivo b)
      → b.offset ≡ (get_or l s bloque_cero).offset
      → b.bytes ≡ (get_or l s bloque_cero).bytes
      → Vivo archivo tamano Vale mundo tam bloque l productor cola cabeza cantidad ini
      → Vivo archivo tamano Vale mundo tam bloque (set l s b) productor cola cabeza cantidad ini
  marcar-Vivo mundo tam bloque l productor cola cabeza cantidad ini s b p f o n v = record {
    vale = v.vale;
    tam_es = v.tam_es;
    bloque_es = v.bloque_es;
    ocho = length-set l s b ∙ v.ocho;
    cabe = v.cabe;
    caben = v.caben;
    cola_es = v.cola_es;
    cadena =
        Cadena-Igual archivo l (set l s b) cabeza cantidad 0 ini productor
          (λ j x y. Igual-set archivo l s ((cabeza + j) % 8) b (omega (arith, p, v.ocho)) f o n)
          v.cadena;
    corto = v.corto;
  }
