-- ===== src/Redis/Store.antt =====
-- What the connector does to the server's store.
use login_server.Base.{
  ℕ, ◌≡◌, refl, ap, ◌∙◌, arith, Bool, true, false, ◌&&◌, Option, none, some, List, [], ◌∷◌, ◌++◌,
  ◌==◌, if◌then◌else◌, Bool-cases, inl, inr,
}
use login_server.Redis.{Text, Client, take_replies, opened, get, set}

abbrev pub same_text : Text → Text → Bool
same_text [] [] = true
same_text [] (b ∷ bs) = false
same_text (a ∷ as') [] = false
same_text (a ∷ as') (b ∷ bs) = (a == b) && same_text as' bs

-- The commands of redis, on a store of texts; the time that a text is kept is not reached.
pub data Command : Type 0 where
  get_command : Text → Command
  set_command : Text → Text → Command
  expire_command : Text → ℕ → Command

abbrev pub Data : Type 0
Data = Text → Option Text

-- The texts that the server replies to the `get`s, and its store behind the commands. A field without a
-- text has none.
abbrev pub reply_to : Option Text → List Text
reply_to none = []
reply_to (some value) = value ∷ []

abbrev pub serve : List Command → Data → List Text × Data
serve [] store = ([], store)
serve (get_command field ∷ rest) store =
    let (replies, after) = serve rest store in (reply_to (store field) ++ replies, after)
serve (set_command field value ∷ rest) store =
    serve rest (λ k. if same_text field k then some value else store k)
serve (expire_command field n ∷ rest) store = serve rest store

-- What a client is at: whether it is connected, the commands noted, and the server's store.
pub record View : Type 0 where
  pub linked : Bool
  pub pending : List Command
  pub store : Data

abbrev noted : View → Command → View
noted v c = record v { pending = v.pending ++ (c ∷ []) }

-- `sync_commit` of a connected client makes the server run the commands noted, in order, while no other
-- client changes the store.
pub record IsClient {C : Type 0} (client : Client C) (view : C → View) : Type 0 where
  pub first_linked : (view (client.connect client.made)).linked ≡ true
  pub first_pending : (view (client.connect client.made)).pending ≡ []
  pub gets : (f : Text) (c : C) → view (client.note_get f c) ≡ noted (view c) (get_command f)
  pub sets : (f v : Text) (c : C) → view (client.note_set f v c) ≡ noted (view c) (set_command f v)
  pub expires :
      (f : Text) (n : ℕ) (c : C)
      → view (client.note_expire f n c) ≡ noted (view c) (expire_command f n)
  pub replies :
      (c : C)
      → (view c).linked ≡ true
      → (client.sync_commit c).0 ≡ (serve (view c).pending (view c).store).0
  pub commits :
      (c : C)
      → (view c).linked ≡ true
      → view (client.sync_commit c).1
        ≡ record (view c) { pending = []; store = (serve (view c).pending (view c).store).1 }

abbrev joined : List Command → Data → View
joined cs store = record { linked = true; pending = cs; store = store }

abbrev flushed : View → View
flushed v = record v { pending = []; store = (serve v.pending v.store).1 }

abbrev put : Text → Text → Data → Data
put field value store k = if same_text field k then some value else store k

same_text_self : (t : Text) → same_text t t ≡ true
same_text_self [] = refl
same_text_self (a ∷ as') = ground (arith, same_text_self as')

reply_self :
    (field value old : Text) (store : Data)
    → take_replies old (reply_to (put field value store field) ++ []) ≡ value
unfolding take_replies
reply_self field value old store = rw (same_text_self field) refl

module _ {C : Type 0} (client : Client C) (view : C → View) (laws : IsClient client view) where
  -- A thread that has no client, or one that is connected and has nothing to send.
  abbrev pub IsReady : Option C → Type 0
  IsReady none = Unit
  IsReady (some c) = ((view c).linked ≡ true) × ((view c).pending ≡ [])

  opened-IsReady : (x : Option C) → IsReady x → IsReady (some (opened client x))
  unfolding opened
  opened-IsReady none h = (laws.first_linked, laws.first_pending)
  opened-IsReady (some c) h = h

  -- The store that a thread's client is at, once it is there.
  abbrev pub store_of : Option C → Data
  store_of x = (view (opened client x)).store

  commit-view :
      (c : C) (cs : List Command) (store : Data)
      → view c ≡ joined cs store
      → ((client.sync_commit c).0 ≡ (serve cs store).0)
        × (view (client.sync_commit c).1 ≡ joined [] (serve cs store).1)
  commit-view c cs store e = (
    laws.replies c (ap (λ v. v.linked) e) ∙ ap (λ v. (serve v.pending v.store).0) e,
    laws.commits c (ap (λ v. v.linked) e) ∙ ap flushed e,
  )

  opened-view : (x : Option C) → IsReady x → view (opened client x) ≡ joined [] (store_of x)
  opened-view x h =
      let (l, p) = opened-IsReady x h in
      λ i. record { linked = l i; pending = p i; store = store_of x }

  set_noted :
      (field value : Text) (x : Option C)
      → IsReady x
      → view (client.note_set field value (opened client x))
        ≡ joined (set_command field value ∷ []) (store_of x)
  set_noted field value x h =
      laws.sets field value (opened client x)
      ∙ ap (λ v. noted v (set_command field value)) (opened-view x h)

  set-view :
      (field value : Text) (expire : ℕ) (x : Option C)
      → IsReady x
      → view (opened client (set client field value expire x))
        ≡ joined [] (put field value (store_of x))
  unfolding set opened
  set-view field value expire x h = elim (Bool-cases (expire == 0)) [
    | inl e ↦
        rw e
          (commit-view (client.note_set field value (opened client x))
            (set_command field value ∷ []) (store_of x) (set_noted field value x h)).1
    | inr e ↦
        rw e
          (commit-view
            (client.note_expire field expire (client.note_set field value (opened client x)))
            (set_command field value ∷ expire_command field expire ∷ []) (store_of x)
            (laws.expires field expire (client.note_set field value (opened client x))
              ∙ ap (λ v. noted v (expire_command field expire)) (set_noted field value x h))).1
  ]

  set-IsReady :
      (field value : Text) (expire : ℕ) (x : Option C)
      → IsReady x
      → IsReady (some (opened client (set client field value expire x)))
  set-IsReady field value expire x h = (
    ap (λ v. v.linked) (set-view field value expire x h),
    ap (λ v. v.pending) (set-view field value expire x h),
  )

  get-serve :
      (field old : Text) (c : C) (store : Data)
      → view c ≡ joined [] store
      → (get client field old (some c)).0 ≡ take_replies old (reply_to (store field) ++ [])
  unfolding get opened
  get-serve field old c store e =
      ap (take_replies old)
        (commit-view (client.note_get field c) (get_command field ∷ []) store
          (laws.gets field c ∙ ap (λ v. noted v (get_command field)) e)).0

  -- For a client that meets the laws, in a thread that has none or whose client has nothing to send,
  -- while no other client changes the store and the time of the text is not over: after `set`, with or
  -- without such a time, `get` of the same field gives the text that was set, and `get` of another
  -- field gives the text that the store had for it.
  pub get-set :
      (field value old : Text) (expire : ℕ) (x : Option C)
      → IsReady x
      → ((get client field old (set client field value expire x)).0 ≡ value)
        × ((k kept : Text)
            → same_text field k ≡ false
            → store_of x k ≡ some kept
            → (get client k old (set client field value expire x)).0 ≡ kept)
  unfolding set opened take_replies
  get-set field value old expire x h =
      let c = opened client (set client field value expire x) in
      let served = λ (k : Text).
        get-serve k old c (put field value (store_of x)) (set-view field value expire x h) in
      (
        served field ∙ reply_self field value old (store_of x),
        λ k kept other found.
            served k ∙ rw other (ap (λ o. take_replies old (reply_to o ++ [])) found),
      )
