-- ===== src/Serializer/RoundTrip.antt =====
-- What the `<<` operators write, the `>>` operators read back.
use native.Mathlib.Nat.{pow-suc}
use login_server.Base.{
  ℕ, zero, suc, ◌+◌, ◌-◌, ◌/◌, ◌^◌, ◌≤◌, ◌<◌, ◌≡◌, refl, sym, ap, subst, ◌∙◌, Option, some, List,
  [], ◌∷◌, ◌++◌, append_assoc, append-nil, arith, length, take, drop, length-append, take-append,
  drop-append, ◌==◌, if◌then◌else◌, ◌>>=◌,
}
use login_server.Base.Blocks.{slice, read_block_inside}
use login_server.Serializer.{Serializer, Malloc, read, move_front}
use login_server.Serializer.Scalars.{
  Scalar, bool, char, uchar, wchar, short, ushort, int, uint, long, ulong, long_long, ulong_long,
  float, double, width, to_bytes, of_bytes, encode, decode, put, get,
}
use login_server.Serializer.Valid.{
  IsValid, contents, room, appended-IsValid, appended-contents, append_lem, fronted, size_lem,
  fronted-IsValid, fronted-contents, read_head, move_front-pos, length-contents,
}

pub length-to_bytes : (w v : ℕ) → length (to_bytes w v) ≡ w
unfolding to_bytes
length-to_bytes zero v = refl
length-to_bytes (suc w) v = ap suc (length-to_bytes w (v / 256))

-- The values of a type: a `bool` is 0 or 1, another a pattern of its width.
abbrev pub Fits : Scalar → ℕ → Type 0
Fits bool v = v < 2
Fits t v = v < 256 ^ width t

pub of_bytes-to_bytes : (w v : ℕ) → v < 256 ^ w → of_bytes (to_bytes w v) ≡ v
unfolding of_bytes to_bytes
of_bytes-to_bytes zero v h = omega arith
of_bytes-to_bytes (suc w) v h =
    omega (arith, pow-suc 256 w, of_bytes-to_bytes w (v / 256) (omega (arith, pow-suc 256 w)))

pub length-encode : (t : Scalar) (v : ℕ) → length (encode t v) ≡ width t
unfolding encode
length-encode bool v = length-to_bytes 1 (if v == 0 then 0 else 1)
length-encode t v = length-to_bytes (width t) v

pub decode-encode : (t : Scalar) (v : ℕ) → Fits t v → decode t (encode t v) ≡ v
unfolding decode encode
decode-encode bool zero h = refl
decode-encode bool (suc zero) h = refl
decode-encode bool (suc (suc v)) h = absurd (omega arith)
decode-encode char v h = of_bytes-to_bytes 1 v h
decode-encode uchar v h = of_bytes-to_bytes 1 v h
decode-encode wchar v h = of_bytes-to_bytes 2 v h
decode-encode short v h = of_bytes-to_bytes 2 v h
decode-encode ushort v h = of_bytes-to_bytes 2 v h
decode-encode int v h = of_bytes-to_bytes 4 v h
decode-encode uint v h = of_bytes-to_bytes 4 v h
decode-encode long v h = of_bytes-to_bytes 4 v h
decode-encode ulong v h = of_bytes-to_bytes 4 v h
decode-encode long_long v h = of_bytes-to_bytes 8 v h
decode-encode ulong_long v h = of_bytes-to_bytes 8 v h
decode-encode float v h = of_bytes-to_bytes 4 v h
decode-encode double v h = of_bytes-to_bytes 8 v h

-- A row of `<<`, and a row of `>>` at given types.
pub put_all : Malloc → ℕ → Serializer → List (Scalar × ℕ) → Option Serializer
put_all malloc fuel s [] = some s
put_all malloc fuel s ((t, v) ∷ vs) = put malloc fuel s t v >>= λ s'. put_all malloc fuel s' vs

pub get_all : Serializer → List Scalar → Option (List ℕ × Serializer)
get_all s [] = some ([], s)
get_all s (t ∷ ts) = get s t >>= λ (v, s'). get_all s' ts >>= λ (vs, s''). some (v ∷ vs, s'')

abbrev pub types : List (Scalar × ℕ) → List Scalar
types [] = []
types ((t, v) ∷ vs) = t ∷ types vs

abbrev pub values : List (Scalar × ℕ) → List ℕ
values [] = []
values ((t, v) ∷ vs) = v ∷ values vs

abbrev pub encodings : List (Scalar × ℕ) → List ℕ
encodings [] = []
encodings ((t, v) ∷ vs) = encode t v ++ encodings vs

abbrev pub AllFit : List (Scalar × ℕ) → Type 0
AllFit [] = Unit {0}
AllFit ((t, v) ∷ vs) = Fits t v × AllFit vs

abbrev pub total : List (Scalar × ℕ) → ℕ
total [] = 0
total ((t, v) ∷ vs) = width t + total vs

-- A row of values that fits the room is appended in order, with no resize and no fault.
pub put_all_lem :
    (vs : List (Scalar × ℕ)) {s : Serializer} (v : IsValid s) (malloc : Malloc) (fuel : ℕ)
    → total vs ≤ room s
    → (s' : Serializer) × (put_all malloc (suc fuel) s vs ≡ some s')
      × IsValid s'
      × (contents s' ≡ contents s ++ encodings vs)
      × (s'.head_ptr ≡ s.head_ptr)
unfolding put_all put
put_all_lem [] {s} v malloc fuel fits = (s, refl, v, sym (append-nil (contents s)), refl)
put_all_lem ((t, x) ∷ vs) {s} v malloc fuel fits =
    let e = length-encode t x in
    let (s', puts, v', holds, same) =
      put_all_lem vs (appended-IsValid v (encode t x) (omega arith)) malloc fuel (omega arith) in
    (
      s',
      rw (append_lem v malloc fuel (encode t x) (omega arith)) puts,
      v',
      holds
          ∙ ap (λ c. c ++ encodings vs) (appended-contents v (encode t x) (omega arith))
          ∙ append_assoc (contents s) (encode t x) (encodings vs),
      same,
    )

-- A value at the front is read back, and what follows it is left.
pub get_lem :
    (t : Scalar) (x : ℕ) (rest : List ℕ) {s : Serializer} (v : IsValid s)
    → Fits t x
    → contents s ≡ encode t x ++ rest
    → (get s t ≡ some (x, fronted s (width t)))
      × IsValid (fronted s (width t))
      × (contents (fronted s (width t)) ≡ rest)
unfolding get
get_lem t x rest {s} v fits holds =
    let few : width t ≤ s.tail_ptr - s.head_ptr = omega (
      arith,
      length-contents v,
      ap length holds,
      length-append (encode t x) rest,
      length-encode t x,
    ) in
    let first : take (width t) (contents s) ≡ encode t x =
      ap (take (width t)) holds
      ∙ subst (λ k. take k (encode t x ++ rest) ≡ encode t x) (length-encode t x)
          (take-append (encode t x) rest) in
    let after : drop (width t) (contents s) ≡ rest =
      ap (drop (width t)) holds
      ∙ subst (λ k. drop k (encode t x ++ rest) ≡ rest) (length-encode t x)
          (drop-append (encode t x) rest) in
    (
      rw (read_head v (width t) few, move_front-pos v (width t) few, first, decode-encode t x fits)
          refl,
      fronted-IsValid v (width t) few,
      fronted-contents v (width t) few ∙ after,
    )

-- Values that lie at the front are read back in order, and what follows them is left.
pub get_all_lem :
    (vs : List (Scalar × ℕ)) (rest : List ℕ) {s : Serializer} (v : IsValid s)
    → AllFit vs
    → contents s ≡ encodings vs ++ rest
    → (s' : Serializer) × (get_all s (types vs) ≡ some (values vs, s'))
      × IsValid s'
      × (contents s' ≡ rest)
unfolding get_all
get_all_lem [] rest {s} v fits holds = (s, refl, v, holds)
get_all_lem ((t, x) ∷ vs) rest {s} v fits holds =
    let (gets, v', after) =
      get_lem t x (encodings vs ++ rest) v fits.0
        (holds ∙ append_assoc (encode t x) (encodings vs) rest) in
    let (s', all, v'', left) = get_all_lem vs rest v' fits.1 after in
    (s', rw (gets, all) refl, v'', left)

-- What a row of `<<` writes into an empty serializer with room for it, the row of `>>` of the same
-- types reads back, and nothing is left.
pub get_all-put_all :
    (vs : List (Scalar × ℕ)) {s : Serializer}
    → IsValid s
    → (malloc : Malloc) (fuel : ℕ) → AllFit vs
    → total vs ≤ room s
    → contents s ≡ []
    → (s' s'' : Serializer) × (put_all malloc (suc fuel) s vs ≡ some s')
      × (get_all s' (types vs) ≡ some (values vs, s''))
      × (contents s'' ≡ [])
get_all-put_all vs {s} v malloc fuel fit fits none_held =
    let (s', puts, v', holds, _) = put_all_lem vs v malloc fuel fits in
    let (s'', gets, _, left) =
      get_all_lem vs [] v' fit
        (holds ∙ ap (λ c. c ++ encodings vs) none_held ∙ sym (append-nil (encodings vs))) in
    (s', s'', puts, gets, left)

-- A `>>` does not ask how many bytes are held: on fewer than its type needs it still gives a value,
-- made of the bytes that lie behind the tail, and leaves nothing, as long as the block goes on.
pub get_short :
    (t : Scalar) {s : Serializer}
    → IsValid s
    → s.tail_ptr - s.head_ptr < width t
    → s.head_ptr + width t ≤ s.buffer_ptr + s.buffer_size
    → get s t
      ≡ some (
        decode t (slice s.block (s.head_ptr - s.buffer_ptr) (width t)),
        record s { head_ptr = s.tail_ptr },
      )
unfolding get read move_front
get_short t {s} v few fits =
    ground
      (arith, v.whole, size_lem v, read_block_inside s.block (s.head_ptr - s.buffer_ptr) (width t))
