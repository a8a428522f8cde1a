-- ===== src/LoginServer/Timeout.antt =====
-- Which connections a round of `update` ends, and that no call makes a session number stand twice.
use login_server.Base.{
  ◌≤◌, ◌<◌, ◌+◌, ◌^◌, ◌⊎◌, ◌↔◌, ℕ, ◌≡◌, ◌≢◌, refl, sym, ap, ◌∙◌, subst, Bool, true, false, ◌||◌,
  Option, none, some, List, [], ◌∷◌, arith, ◌==◌, if◌then◌else◌, Bool-cases, inl, inr,
}
use login_server.Base.Results.{of_Always}
use login_server.LoginServer.{
  ConnectionMap, erase, lookup, on_new_connect, on_disconnect, timed_out, update,
}

-- Each session number stands once.
abbrev pub IsMap : ConnectionMap → Type 0
IsMap [] = Unit
IsMap ((k, t) ∷ m) = (lookup k m ≡ none) × IsMap m

abbrev pub contains : ℕ → List ℕ → Bool
contains id [] = false
contains id (k ∷ ks) = (k == id) || contains id ks

-- Whether a session is one that a round at `current_tick` ends.
abbrev pub is_due : ℕ → ℕ → Option ℕ → Bool
is_due threshold current_tick none = false
is_due threshold current_tick (some t) = timed_out threshold current_tick t

same : (k : ℕ) → (k == k) ≡ true
same k = ground arith

other : (j k : ℕ) → j ≢ k → (j == k) ≡ false
other j k h = ground arith

equal : (j k : ℕ) → (j == k) ≡ true → j ≡ k
equal j k h = ground arith

lookup-erase :
    (id k : ℕ) (m : ConnectionMap) → lookup k (erase id m) ≡ (if k == id then none else lookup k m)
unfolding lookup erase
lookup-erase id k [] = elim (Bool-cases (k == id)) [ inl e ↦ rw e refl | inr e ↦ rw e refl ]
lookup-erase id k ((j, t) ∷ m) = elim (Bool-cases (j == id)) [
  | inl e ↦ rw e (ground (arith, e, lookup-erase id k m))
  | inr e ↦ rw e (ground (arith, e, lookup-erase id k m))
]

erase-IsMap : (id : ℕ) (m : ConnectionMap) → IsMap m → IsMap (erase id m)
unfolding erase
erase-IsMap id [] v = tt
erase-IsMap id ((k, t) ∷ m) v = elim (Bool-cases (k == id)) [
  | inl e ↦ rw e (erase-IsMap id m v.1)
  | inr e ↦ rw e (lookup-erase id k m ∙ rw e v.0, erase-IsMap id m v.1)
]

-- For a map in which each number stands once: `OnNewConnect` and `OnDisconnect` keep it so, a session
-- that was found is in it with its tick, one that is disconnected is not, and no other changes.
pub connections_lem :
    (m : ConnectionMap)
    → IsMap m
    → (id tick : ℕ)
    → IsMap (on_new_connect true id tick m)
      × IsMap (on_disconnect id m)
      × (lookup id (on_new_connect true id tick m) ≡ some tick)
      × (lookup id (on_disconnect id m) ≡ none)
      × ((k : ℕ)
          → k ≢ id
          → (lookup k (on_new_connect true id tick m) ≡ lookup k m)
            × (lookup k (on_disconnect id m) ≡ lookup k m))
unfolding on_new_connect on_disconnect lookup
connections_lem m v id tick =
    let gone : lookup id (erase id m) ≡ none =
      lookup-erase id id m ∙ ap (λ b. if b then none else lookup id m) (same id) in
    let kept : (k : ℕ) → k ≢ id → lookup k (erase id m) ≡ lookup k m =
      λ k h. lookup-erase id k m ∙ ap (λ b. if b then none else lookup k m) (other k id h) in
    (
      (gone, erase-IsMap id m v),
      erase-IsMap id m v,
      rw (same id) refl,
      gone,
      λ k h. (rw (other id k (λ e. h (sym e))) (kept k h), kept k h),
    )

update_filter :
    (threshold current_tick : ℕ) (m : ConnectionMap)
    → IsMap m
    → (id : ℕ)
    → contains id (update threshold current_tick m) ≡ is_due threshold current_tick (lookup id m)
unfolding update lookup
update_filter threshold now [] v id = refl
update_filter threshold now ((k, t) ∷ m) v id = elim (Bool-cases (k == id)) [
  | inl e ↦
      let left : contains id (update threshold now m) ≡ false =
        update_filter threshold now m v.1 id
        ∙ ap (is_due threshold now) (ap (λ j. lookup j m) (sym (equal k id e)) ∙ v.0) in
      elim (Bool-cases (timed_out threshold now t)) [
        | inl d ↦ rw (d, e, d) refl
        | inr d ↦ rw (d, e, d) left
      ]
  | inr e ↦ elim (Bool-cases (timed_out threshold now t)) [
    | inl d ↦ rw (d, e) (update_filter threshold now m v.1 id)
    | inr d ↦ rw (d, e) (update_filter threshold now m v.1 id)
  ]
]

-- That a tick lies more than the threshold before `current_tick`; of a tick behind it, the time left to
-- 2 ^ 64 milliseconds counts.
abbrev pub Overdue : ℕ → ℕ → ℕ → Type 0
Overdue threshold current_tick tick =
    ((tick ≤ current_tick) × (threshold + tick < current_tick))
    ⊎ ((current_tick < tick) × (threshold + tick < current_tick + 2 ^ 64))

timed_out-Overdue :
    (threshold now tick : ℕ)
    → now < 2 ^ 64
    → tick < 2 ^ 64
    → (timed_out threshold now tick ≡ true) ↔ Overdue threshold now tick
unfolding timed_out
timed_out-Overdue threshold now tick small small' = ground arith

is_due-Overdue :
    (threshold now : ℕ) (found : Option ℕ)
    → now < 2 ^ 64
    → ((t : ℕ) → found ≡ some t → t < 2 ^ 64)
    → (is_due threshold now found ≡ true) ↔ ((t : ℕ) × (found ≡ some t) × Overdue threshold now t)
is_due-Overdue threshold now none small narrow =
    (λ e. absurd (not_true e), λ (t, e, due). of_Always (λ k. false ≡ true) none t (record {}) e)
  where
    not_true : false ≡ true → ⊥
    not_true e = ground arith
is_due-Overdue threshold now (some tick) small narrow = (
  λ e. (tick, refl, (timed_out-Overdue threshold now tick small (narrow tick refl)).0 e),
  λ (t, e, due).
      (timed_out-Overdue threshold now tick small (narrow tick refl)).1
        (subst (Overdue threshold now) (of_Always (λ k. k ≡ tick) (some tick) t refl e) due),
)

-- For a map in which each number stands once, and ticks of 64 bits: a round of `update` disconnects
-- exactly the sessions whose connection was made more than the threshold before the tick that the
-- round has read, and those made behind that tick by less than 2 ^ 64 less the threshold.
pub update_lem :
    (threshold current_tick : ℕ) (m : ConnectionMap)
    → IsMap m
    → current_tick < 2 ^ 64
    → (id : ℕ) → ((t : ℕ) → lookup id m ≡ some t → t < 2 ^ 64)
    → (contains id (update threshold current_tick m) ≡ true)
      ↔ ((t : ℕ) × (lookup id m ≡ some t) × Overdue threshold current_tick t)
update_lem threshold now m v small id narrow =
    rw (update_filter threshold now m v id)
      (is_due-Overdue threshold now (lookup id m) small narrow)
