-- ===== src/LoginServer/Login/Chunks.antt =====
-- Pieces of bytes that are put into a serializer one behind the other.
use login_server.Base.{
  ℕ, zero, suc, ◌+◌, ◌-◌, ◌/◌, ◌≤◌, ◌≡◌, refl, sym, ap, ◌∙◌, true, some, List, [], ◌∷◌, ◌++◌,
  length, length-append, append-nil, append_assoc, take, arith, leb, le→leb,
}
use login_server.Base.Blocks.{splice, length-splice}
use login_server.Serializer.{Serializer, Malloc, useable_size}
use login_server.Serializer.Scalars.{Scalar, width, encode, put, set_text, to_bytes}
use login_server.Serializer.Valid.{
  IsValid, contents, room, appended, appended-IsValid, appended-contents, append_lem, write_tail,
  with_block, move_rear-pos, useable_size_lem,
}
use login_server.Serializer.RoundTrip.{length-encode}
use login_server.Serializer.Cipher.{AllBytes}

-- Pieces of bytes, put behind each other.
abbrev pub filled : Serializer → List (List ℕ) → Serializer
filled s [] = s
filled s (c ∷ cs) = filled (appended s c) cs

abbrev pub joined : List (List ℕ) → List ℕ
joined [] = []
joined (c ∷ cs) = c ++ joined cs

pub filled_lem :
    (cs : List (List ℕ)) {s : Serializer}
    → IsValid s
    → length (joined cs) ≤ room s
    → IsValid (filled s cs)
      × (contents (filled s cs) ≡ contents s ++ joined cs)
      × (room (filled s cs) ≡ room s - length (joined cs))
      × ((filled s cs).head_ptr ≡ s.head_ptr)
      × ((filled s cs).buffer_ptr ≡ s.buffer_ptr)
filled_lem [] {s} v fits = (v, sym (append-nil (contents s)), omega arith, refl, refl)
filled_lem (c ∷ cs) {s} v fits =
    let here : length c ≤ room s = omega (arith, length-append c (joined cs)) in
    let (v', holds, left, head, base) =
      filled_lem cs (appended-IsValid v c here) (omega (arith, length-append c (joined cs))) in
    (
      v',
      holds
          ∙ ap (λ b. b ++ joined cs) (appended-contents v c here)
          ∙ append_assoc (contents s) c (joined cs),
      omega (arith, left, length-append c (joined cs)),
      head,
      base,
    )

-- `setWstring` of a text that fits.
set_text_lem :
    {s : Serializer} (v : IsValid s) (text : List ℕ)
    → length text ≤ room s
    → set_text s text ≡ some (appended s text)
unfolding set_text
set_text_lem {s} v text fits =
    rw (fits_in (useable_size s) (omega (arith, useable_size_lem v)), write_tail v text fits)
      (ap (λ m. some m.1)
        (move_rear-pos
          (with_block v (splice s.block (s.tail_ptr - s.buffer_ptr) text)
            (length-splice s.block (s.tail_ptr - s.buffer_ptr) text ∙ v.whole))
          (length text) fits))
  where
    fits_in : (n : ℕ) → length text ≤ n → leb (length text) n ≡ true
    fits_in n h = le→leb (length text) n h

AllBytes-append : (a b : List ℕ) → AllBytes a → AllBytes b → AllBytes (a ++ b)
AllBytes-append [] b h k = k
AllBytes-append (x ∷ a) b h k = (h.0, AllBytes-append a b h.1 k)

pub AllBytes-take : (n : ℕ) (a : List ℕ) → AllBytes a → AllBytes (take n a)
AllBytes-take zero a h = record {}
AllBytes-take (suc n) [] h = record {}
AllBytes-take (suc n) (x ∷ a) h = (h.0, AllBytes-take n a h.1)

pub to_bytes-AllBytes : (w v : ℕ) → AllBytes (to_bytes w v)
unfolding to_bytes
to_bytes-AllBytes zero v = record {}
to_bytes-AllBytes (suc w) v = (omega arith, to_bytes-AllBytes w (v / 256))

abbrev pub AllPieces : List (List ℕ) → Type 0
AllPieces [] = Unit {0}
AllPieces (c ∷ cs) = AllBytes c × AllPieces cs

pub joined-AllBytes : (cs : List (List ℕ)) → AllPieces cs → AllBytes (joined cs)
joined-AllBytes [] h = record {}
joined-AllBytes (c ∷ cs) h = AllBytes-append c (joined cs) h.0 (joined-AllBytes cs h.1)

module _ (malloc : Malloc) (fuel : ℕ) {r : Serializer} (v : IsValid r) (cs : List (List ℕ)) where
  pub put_step :
      (t : Scalar) (x : ℕ)
      → length (joined cs) + width t ≤ room r
      → put malloc (suc fuel) (filled r cs) t x ≡ some (appended (filled r cs) (encode t x))
  unfolding put
  put_step t x fits =
      let (v', _, left, _, _) = filled_lem cs v (omega arith) in
      append_lem v' malloc fuel (encode t x) (omega (arith, left, length-encode t x))

  pub text_step :
      (text : List ℕ)
      → length (joined cs) + length text ≤ room r
      → set_text (filled r cs) text ≡ some (appended (filled r cs) text)
  text_step text fits =
      let (v', _, left, _, _) = filled_lem cs v (omega arith) in
      set_text_lem v' text (omega (arith, left))

pub joined-prefix :
    (cs : List (List ℕ)) (c : List ℕ) (ds : List (List ℕ))
    → length (joined cs) + length c ≤ length (joined (cs ++ (c ∷ ds)))
joined-prefix [] c ds = omega (arith, length-append c (joined ds))
joined-prefix (b ∷ cs) c ds = omega (
  arith,
  joined-prefix cs c ds,
  length-append b (joined cs),
  length-append b (joined (cs ++ (c ∷ ds))),
)
