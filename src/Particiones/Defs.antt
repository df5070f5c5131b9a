-- ===== src/Particiones/Defs.antt =====
-- Recognising a volume, and reading the MBR and GPT tables, in nucleo/controladores/particiones.c.
use taek_os.Prelude.{
  ℕ, zero, suc, ◌+◌, ◌-◌, ◌*◌, ◌/◌, ◌%◌, ◌^◌, Bool, true, false, not, ◌&&◌, ◌||◌, List, [], ◌∷◌,
  ◌++◌, ◌==◌, ltb, if◌then◌else◌, length, get_or, take, drop, bit_and, bit_xor,
}
use taek_os.Particiones.Usb.{
  UsbMscDispositivo, VolumenResultado, volumen_ok, no_soportado, corrupto, transporte, desconectado,
  cancelado, VolumenFormato, desconocido, fat32, exfat, ntfs, Res, listo, fallo,
}
use taek_os.Particiones.Leer.{Particion}

abbrev pub u16 : List ℕ → ℕ → ℕ
u16 s i = get_or s i 0 + get_or s (i + 1) 0 * 2 ^ 8

abbrev pub u32 : List ℕ → ℕ → ℕ
u32 s i = u16 s i + u16 s (i + 2) * 2 ^ 16

abbrev pub u64 : List ℕ → ℕ → ℕ
u64 s i = u32 s i + u32 s (i + 4) * 2 ^ 32

-- `!memcmp(s, t, length of t)`
abbrev pub empieza : List ℕ → List ℕ → Bool
empieza s [] = true
empieza [] (b ∷ t) = false
empieza (a ∷ s) (b ∷ t) = a == b && empieza s t

abbrev pub nombre_exfat : List ℕ
nombre_exfat = 69 ∷ 88 ∷ 70 ∷ 65 ∷ 84 ∷ 32 ∷ 32 ∷ 32 ∷ []

abbrev pub nombre_ntfs : List ℕ
nombre_ntfs = 78 ∷ 84 ∷ 70 ∷ 83 ∷ 32 ∷ 32 ∷ 32 ∷ 32 ∷ []

abbrev pub nombre_fat32 : List ℕ
nombre_fat32 = 70 ∷ 65 ∷ 84 ∷ 51 ∷ 50 ∷ 32 ∷ 32 ∷ 32 ∷ []

abbrev pub firma_gpt : List ℕ
firma_gpt = 69 ∷ 70 ∷ 73 ∷ 32 ∷ 80 ∷ 65 ∷ 82 ∷ 84 ∷ []

-- The eight rounds for a byte, and the bytes.
unfoldable pub crc_bits : ℕ → ℕ → ℕ
crc_bits zero c = c
crc_bits (suc b) c = crc_bits b (bit_xor (c / 2) (if c % 2 == 1 then 0xedb88320 else 0))

unfoldable pub crc : ℕ → List ℕ → ℕ
crc c [] = c
crc c (b ∷ s) = crc (crc_bits 8 (bit_xor c b)) s

-- What the first sector says: a format, a FAT that is not FAT32, a FAT32 label on a bad sector, or nothing.
pub data Clase : Type 0 where
  es : VolumenFormato → Clase
  otra_fat rota nada : Clase

abbrev pub potencia : ℕ → Bool
potencia b = bit_and b (b - 1) == 0

abbrev pub total_fat : List ℕ → ℕ
total_fat s = if u16 s 19 == 0 then u32 s 32 else u16 s 19

abbrev pub fat_fat : List ℕ → ℕ
fat_fat s = if u16 s 22 == 0 then u32 s 36 else u16 s 22

abbrev pub meta_fat : List ℕ → ℕ
meta_fat s =
    let b = u16 s 11 in
    let root = (u16 s 17 * 32 + b + 2 ^ 64 - 1) % 2 ^ 64 / (if b == 0 then 1 else b) in
    (u16 s 14 + get_or s 16 0 * fat_fat s + root) % 2 ^ 64

abbrev pub parece_fat : List ℕ → Bool
parece_fat s =
    let b = u16 s 11 in
    let spc = get_or s 13 0 in
    let nf = get_or s 16 0 in
    get_or s 510 0 == 0x55
    && get_or s 511 0 == 0xaa
    && not (ltb b 512)
    && not (ltb 4096 b)
    && potencia b
    && not (spc == 0)
    && potencia spc
    && not (u16 s 14 == 0)
    && not (nf == 0)
    && not (ltb 2 nf)
    && ltb (meta_fat s) (total_fat s)
    && not (fat_fat s == 0)

unfoldable pub clasificar : List ℕ → Clase
clasificar s =
    if empieza (drop 3 s) nombre_exfat
    then es exfat
    else if empieza (drop 3 s) nombre_ntfs
    then es ntfs
    else if parece_fat s
    then if not (ltb ((total_fat s - meta_fat s) / get_or s 13 0) 65525)
        && u16 s 17 == 0
        && u16 s 22 == 0
      then es fat32
      else otra_fat
    else if empieza (drop 82 s) nombre_fat32
    then rota
    else nada

abbrev pub marcar : Particion → VolumenFormato → VolumenResultado → Particion
marcar p f r = record p { formato = f; resultado = r }

-- `out->entradas` and `out->total`, its length, with `out->recuperado`.
pub record Particiones : Type 0 where
  pub entradas : List Particion
  pub recuperado : Bool

abbrev pub vacias : Particiones
vacias = record { entradas = []; recuperado = false }

-- Does the new range meet a partition of the list?
unfoldable pub solapa : List Particion → ℕ → ℕ → Bool
solapa [] inicio n = false
solapa (p ∷ ps) inicio n =
    ltb inicio ((p.inicio + p.sectores) % 2 ^ 64) && ltb p.inicio ((inicio + n) % 2 ^ 64)
    || solapa ps inicio n

abbrev pub no_entra : Particion → ℕ → ℕ → Bool
no_entra disco inicio n =
    n == 0 || inicio == 0 || not (ltb inicio disco.sectores) || ltb (disco.sectores - inicio) n

abbrev pub con_entrada : Particiones → Particion → ℕ → ℕ → ℕ → ℕ → Particiones
con_entrada out disco inicio n num esquema = record out {
  entradas =
      out.entradas
      ++ record disco { inicio = inicio; sectores = n; numero = num; esquema = esquema } ∷ [];
}

unfoldable pub agregar : Particiones → Particion → ℕ → ℕ → ℕ → ℕ → Res Particiones
agregar out disco inicio n num esquema =
    if no_entra disco inicio n
    then fallo corrupto
    else if length out.entradas == 128
    then fallo no_soportado
    else if solapa out.entradas inicio n
    then fallo corrupto
    else listo (con_entrada out disco inicio n num esquema)

-- `usado`: is any of the 16 bytes of the type set?
abbrev pub alguno : ℕ → List ℕ → Bool
alguno zero e = false
alguno (suc k) [] = false
alguno (suc k) (b ∷ e) = not (b == 0) || alguno k e

-- What the entry `e` adds to the table.
abbrev pub gpt_entrada : Particion → ℕ → ℕ → ℕ → List ℕ → Particiones → Res Particiones
gpt_entrada disco primero ultimo i e out =
    let a = u64 e 32 in
    let b = u64 e 40 in
    if not (alguno 16 e)
    then listo out
    else if ltb a primero || ltb ultimo b || ltb b a
    then fallo corrupto
    else agregar out disco a (b - a + 1) (i + 1) 2

abbrev pub dentro : ℕ → ℕ → ℕ → Bool
dentro x a b = not (ltb x a) && not (ltb b x)

abbrev pub alterno : Particion → ℕ → ℕ
alterno disco donde = if donde == 1 then disco.sectores - 1 else 1

-- The conditions on the header, in the code's groups.
abbrev pub cabecera_mala : Particion → ℕ → List ℕ → Bool
cabecera_mala disco donde h =
    not (empieza h firma_gpt)
    || not (u32 h 8 == 0x10000)
    || ltb (u32 h 12) 92
    || ltb 512 (u32 h 12)
    || not (u32 h 20 == 0)
    || not (u64 h 24 == donde)
    || not (ltb (u64 h 32) disco.sectores)
    || ltb (u64 h 48) (u64 h 40)
    || not (ltb (u64 h 48) disco.sectores)

abbrev pub rango_malo : Particion → ℕ → List ℕ → Bool
rango_malo disco donde h =
    not (u64 h 32 == alterno disco donde)
    || ltb (u64 h 40) 2
    || not (ltb (u64 h 48) (disco.sectores - 1))
    || dentro donde (u64 h 40) (u64 h 48)
    || dentro (alterno disco donde) (u64 h 40) (u64 h 48)

abbrev pub crc_malo : List ℕ → Bool
crc_malo h = not (
    bit_xor (crc 0xffffffff (take (u32 h 12) (take 16 h ++ 0 ∷ 0 ∷ 0 ∷ 0 ∷ drop 20 h))) 0xffffffff
    == u32 h 16)

abbrev pub entradas_malas : List ℕ → Bool
entradas_malas h =
    let n = u32 h 80 in
    let entrada = u32 h 84 in
    n == 0 || ltb 4096 n || ltb entrada 128 || ltb 4096 entrada || not (potencia entrada)

abbrev pub sectores_tabla : List ℕ → ℕ
sectores_tabla h = (u32 h 80 * u32 h 84 + 511) / 512

abbrev pub tabla_mala : Particion → ℕ → List ℕ → Bool
tabla_mala disco donde h =
    let tabla = u64 h 72 in
    let n = sectores_tabla h in
    tabla == 0
    || not (ltb tabla disco.sectores)
    || ltb (disco.sectores - tabla) n
    || (not (ltb (u64 h 48) tabla) && ltb (u64 h 40) (tabla + n))
    || (not (ltb donde tabla) && ltb donde (tabla + n))
    || (not (ltb (alterno disco donde) tabla) && ltb (alterno disco donde) (tabla + n))

abbrev pub mbr_sigue :
    (Particiones → VolumenResultado × Particiones)
    → Particiones
    → Res Particiones
    → VolumenResultado × Particiones
mbr_sigue sigue out (fallo c) = (c, record out { entradas = [] })
mbr_sigue sigue out (listo otra) = sigue otra

-- The four entries of the MBR. A bad boot flag or an extended partition leaves what was added, an entry that does
-- not fit empties the table.
unfoldable pub mbr : ℕ → ℕ → Particion → List ℕ → Particiones → VolumenResultado × Particiones
mbr zero i disco s out = (volumen_ok, out)
mbr (suc f) i disco s out =
    let e = drop (446 + i * 16) s in
    let tipo = get_or e 4 0 in
    let r = if tipo == 0 then listo out else agregar out disco (u32 e 8) (u32 e 12) (i + 1) 1 in
    if not (tipo == 0) && not (get_or e 0 0 == 0) && not (get_or e 0 0 == 0x80)
    then (corrupto, out)
    else if tipo == 5 || tipo == 15 || tipo == 0x85
    then (no_soportado, out)
    else mbr_sigue (mbr f (i + 1) disco s) out r

abbrev pub protector : List ℕ → Bool
protector s =
    get_or s 450 0 == 0xee
    || get_or s 466 0 == 0xee
    || get_or s 482 0 == 0xee
    || get_or s 498 0 == 0xee

-- Is the result one that ends the search?
abbrev pub de_lectura : VolumenResultado → Bool
de_lectura transporte = true
de_lectura desconectado = true
de_lectura e = false

abbrev pub es_desconocido : VolumenFormato → Bool
es_desconocido desconocido = true
es_desconocido f = false

abbrev pub de_corte : VolumenResultado → Bool
de_corte cancelado = true
de_corte e = de_lectura e

abbrev pub disco_de : ℕ → UsbMscDispositivo → Particion
disco_de unidad d = record {
  inicio = 0;
  sectores = d.sectores_totales;
  generacion_msc = d.generacion;
  numero = 0;
  unidad = unidad;
  esquema = 0;
  formato = desconocido;
  resultado = volumen_ok;
  recuperado = false;
}
