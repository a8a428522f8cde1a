-- ===== src/LoginServer/Login/Key.antt =====
-- loginServer/loginServer.cpp with lib/redis connector/redisConnector.cpp: `redisUpdate`, which puts a
-- session key under the text of its account number.
use login_server.Base.{
  ℕ, zero, suc, ◌+◌, ◌-◌, ◌*◌, ◌/◌, ◌%◌, ◌^◌, ◌≡◌, ◌≢◌, ◌<◌, ◌≤◌, refl, sym, ap, ◌∙◌, arith, Bool,
  true, false, ◌&&◌, Option, none, some, [], ◌∷◌, ◌++◌, ltb, ◌==◌, if◌then◌else◌, Bool-cases, inl,
  inr, ap₂, ==_iff,
}
use login_server.Redis.{Text, Client, get, set}
use login_server.Redis.Store.{View, IsClient, IsReady, store_of, same_text, get-set}
use login_server.LoginServer.Login.{Handled}

-- `to_string` of a number below 2 ^ 64, of which the decimal digits are at most 20.
unfoldable pub decimal : ℕ → ℕ → Text
decimal zero n = (48 + n % 10) ∷ []
decimal (suc fuel) n =
    let rest = decimal fuel (n / 10) in
    if ltb n 10 then (48 + n) ∷ [] else rest ++ ((48 + n % 10) ∷ [])

unfoldable pub to_string : ℕ → Text
unfolding decimal
to_string n = decimal 19 n

-- `redisUpdate` of what `OnRecv` gives to redis, if it comes to it; the text is kept for a second.
unfoldable pub redis_update : {C : Type 0} → Client C → Option (ℕ × Text) → Option C → Option C
unfolding to_string
redis_update client none x = x
redis_update client (some (account_no, session_key)) x =
    set client (to_string account_no) session_key 1 x

-- The number that a decimal text says.
abbrev read_decimal : ℕ → Text → ℕ
read_decimal acc [] = acc
read_decimal acc (d ∷ ds) = read_decimal (acc * 10 + (d - 48)) ds

read_decimal-append :
    (acc : ℕ) (xs : Text) (d : ℕ)
    → read_decimal acc (xs ++ (d ∷ [])) ≡ read_decimal acc xs * 10 + (d - 48)
read_decimal-append acc [] d = refl
read_decimal-append acc (x ∷ xs) d = read_decimal-append (acc * 10 + (x - 48)) xs d

abbrev limit : ℕ → ℕ
limit zero = 10
limit (suc n) = 10 * limit n

read_decimal-decimal : (fuel n : ℕ) → n < limit fuel → read_decimal 0 (decimal fuel n) ≡ n
unfolding decimal
read_decimal-decimal zero n h = omega (arith, h)
read_decimal-decimal (suc fuel) n h = elim (Bool-cases (ltb n 10)) [
  | inl e ↦ rw e (omega arith)
  | inr e ↦ rw e (
      read_decimal-append 0 (decimal fuel (n / 10)) (48 + n % 10)
      ∙ rw (read_decimal-decimal fuel (n / 10) (omega (arith, h))) (omega arith))
]

abbrev one_if : Bool → ℕ
one_if b = if b then 1 else 0

false_is : false ≡ true → 1 ≤ 0
false_is e = omega (arith, ap one_if e)

same_text_eq : (s t : Text) → same_text s t ≡ true → s ≡ t
same_text_eq [] [] e = refl
same_text_eq [] (b ∷ bs) e = absurd (omega (arith, false_is e))
same_text_eq (a ∷ as') [] e = absurd (omega (arith, false_is e))
same_text_eq (a ∷ as') (b ∷ bs) e = elim (Bool-cases (a == b)) [
  | inl f ↦
      ap₂ ◌∷◌ ((==_iff a b).0 f) (same_text_eq as' bs (ap (λ c. c && same_text as' bs) (sym f) ∙ e))
  | inr f ↦ absurd (omega (arith, false_is (ap (λ c. c && same_text as' bs) (sym f) ∙ e)))
]

-- Different accounts have different texts.
to_string_apart :
    (a b : ℕ) → a < 2 ^ 64 → b < 2 ^ 64 → b ≢ a → same_text (to_string a) (to_string b) ≡ false
unfolding to_string
to_string_apart a b small small' other = elim (Bool-cases (same_text (to_string a) (to_string b))) [
  | inl e ↦ absurd (
      other (
        sym (read_decimal-decimal 19 b (omega (arith, small')))
        ∙ ap (read_decimal 0) (sym (same_text_eq (to_string a) (to_string b) e))
        ∙ read_decimal-decimal 19 a (omega (arith, small))))
  | inr e ↦ e
]

-- For a client of redis that meets the laws, in a thread that has none or whose client has nothing to
-- send, while no other client changes the store and the second is not over: once `OnRecv` has come to
-- `redisUpdate` for an account, the text under the account's number is its session key, and that of
-- any other account is what it was.
pub redis_update-get :
    {C : Type 0} (client : Client C) (view : C → View) (laws : IsClient client view)
    → (h : Handled) (account_no : ℕ) (session_key old : Text) (x : Option C)
    → IsReady client view laws x
    → account_no < 2 ^ 64
    → h.stored ≡ some (account_no, session_key)
    → ((get client (to_string account_no) old (redis_update client h.stored x)).0 ≡ session_key)
      × ((other : ℕ) (kept : Text)
          → other < 2 ^ 64
          → other ≢ account_no
          → store_of client view laws x (to_string other) ≡ some kept
          → (get client (to_string other) old (redis_update client h.stored x)).0 ≡ kept)
unfolding redis_update
redis_update-get client view laws h account_no session_key old x ready small stored =
    let (own, others) = get-set client view laws (to_string account_no) session_key old 1 x ready in
    (
      rw stored own,
      λ other kept small' apart found. rw stored (
          others (to_string other) kept (to_string_apart account_no other small small' apart)
            found),
    )
