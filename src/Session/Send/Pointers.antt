-- ===== src/Session/Send/Pointers.antt =====
-- Addresses of packets as the eight bytes that the ring `sendedBuffer` holds of each.
use login_server.Base.{
  ℕ, ◌+◌, ◌*◌, ◌^◌, ◌≤◌, ◌<◌, ◌≡◌, refl, sym, ap, ◌∙◌, some, List, [], ◌∷◌, ◌++◌, length, take,
  drop, arith, length-append, take-append, drop-append, take-length_le, append-nil, append_assoc,
}
use login_server.Ring.{Ring, push, pop}
use login_server.Ring.Index.{IsValid, span}
use login_server.Ring.Contents.{contents, length-tabulate}
use login_server.Ring.Push.{taken, push_lem}
use login_server.Ring.Pop.{given, pop_lem}
use login_server.Serializer.Scalars.{to_bytes, of_bytes}
use login_server.Serializer.RoundTrip.{length-to_bytes, of_bytes-to_bytes}

abbrev pub pointers : List ℕ → List ℕ
pointers [] = []
pointers (a ∷ ps) = to_bytes 8 a ++ pointers ps

abbrev pub AllAddresses : List ℕ → Type 0
AllAddresses [] = Unit
AllAddresses (a ∷ ps) = (a < 2 ^ 64) × AllAddresses ps

pub length-pointers : (ps : List ℕ) → length (pointers ps) ≡ 8 * length ps
length-pointers [] = omega arith
length-pointers (a ∷ ps) =
    omega
      (arith, length-append (to_bytes 8 a) (pointers ps), length-to_bytes 8 a, length-pointers ps)

pub pointers-append : (ps bs : List ℕ) → pointers (ps ++ bs) ≡ pointers ps ++ pointers bs
pointers-append [] bs = refl
pointers-append (a ∷ ps) bs =
    ap (◌++◌ (to_bytes 8 a)) (pointers-append ps bs)
    ∙ sym (append_assoc (to_bytes 8 a) (pointers ps) (pointers bs))

-- A ring that holds just the addresses of these packets.
pub record Carries (r : Ring) (ps : List ℕ) : Type 0 where
  pub valid : IsValid r
  pub holds : contents r ≡ pointers ps

pub span-Carries : {r : Ring} {ps : List ℕ} → Carries r ps → span r ≡ 8 * length ps
span-Carries {r} {ps} c = sym (length-tabulate _ (span r)) ∙ ap length c.holds ∙ length-pointers ps

pub push-Carries :
    {r : Ring} {ps : List ℕ} (c : Carries r ps) (a : ℕ)
    → 8 * length ps + 8 ≤ r.max_size
    → (r' : Ring) × (push r (to_bytes 8 a) ≡ some (8, r'))
      × (r'.max_size ≡ r.max_size)
      × Carries r' (ps ++ (a ∷ []))
push-Carries {r} {ps} c a fits =
    let (r', pushes, valid, max, holds) = push_lem r c.valid (to_bytes 8 a) in
    let all : taken r (length (to_bytes 8 a)) ≡ 8 =
      omega (arith, length-to_bytes 8 a, span-Carries c) in
    let whole : take 8 (to_bytes 8 a) ≡ to_bytes 8 a =
      take-length_le 8 (to_bytes 8 a) (omega (arith, length-to_bytes 8 a)) in
    (
      r',
      pushes ∙ ap (λ n. some (n, r')) all,
      max,
      record {
        valid = valid;
        holds =
            holds
            ∙ ap (λ n. contents r ++ take n (to_bytes 8 a)) all
            ∙ ap (λ bs. contents r ++ bs) whole
            ∙ ap (λ cs. cs ++ to_bytes 8 a) c.holds
            ∙ ap (λ bs. pointers ps ++ bs) (sym (append-nil (to_bytes 8 a)))
            ∙ sym (pointers-append ps (a ∷ []));
      },
    )

pub pop-Carries :
    {r : Ring} {a : ℕ} {ps : List ℕ} (c : Carries r (a ∷ ps))
    → (r' : Ring) × (pop r 8 ≡ some (8, to_bytes 8 a, r'))
      × (r'.max_size ≡ r.max_size)
      × Carries r' ps
pop-Carries {r} {a} {ps} c =
    let (r', pops, valid, max, left) = pop_lem r c.valid 8 in
    let all : given r 8 ≡ 8 = omega (arith, span-Carries c) in
    let first : take 8 (contents r) ≡ to_bytes 8 a =
      (λ i. take (sym (length-to_bytes 8 a) i) (c.holds i))
      ∙ take-append (to_bytes 8 a) (pointers ps) in
    let rest : drop 8 (contents r) ≡ pointers ps =
      (λ i. drop (sym (length-to_bytes 8 a) i) (c.holds i))
      ∙ drop-append (to_bytes 8 a) (pointers ps) in
    (
      r',
      pops ∙ (λ i. some (all i, take (all i) (contents r), r')) ∙ ap (λ bs. some (8, bs, r')) first,
      max,
      record { valid = valid; holds = left ∙ ap (λ n. drop n (contents r)) all ∙ rest },
    )

pub pointer-back : (a : ℕ) → a < 2 ^ 64 → of_bytes (to_bytes 8 a) ≡ a
pointer-back a h = of_bytes-to_bytes 8 a (omega arith)
