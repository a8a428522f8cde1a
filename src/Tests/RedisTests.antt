-- ===== src/Tests/RedisTests.antt =====
-- A client of redis that keeps the store itself.
use login_server.Base.{◌≡◌, refl, true, false, none, List, [], ◌∷◌, ◌++◌, if◌then◌else◌}
use login_server.Redis.{Text, Client, take_replies, opened, get, set, disconnect}
use login_server.Redis.Store.{
  Command, get_command, set_command, expire_command, serve, View, IsClient,
}

abbrev sent : View → List Text × View
sent v =
    if v.linked
    then (
      (serve v.pending v.store).0,
      record v { pending = []; store = (serve v.pending v.store).1 },
    )
    else ([], v)

abbrev note : Command → View → View
note c v = record v { pending = v.pending ++ (c ∷ []) }

abbrev pub client : Client View
client = record {
  made = record { linked = false; pending = []; store = λ k. none };
  connect = λ v. record v { linked = true };
  note_get = λ f. note (get_command f);
  note_set = λ f t. note (set_command f t);
  note_expire = λ f n. note (expire_command f n);
  sync_commit = sent;
  disconnect = λ v. record v { linked = false };
}

pub client-IsClient : IsClient client (λ v. v)
client-IsClient = record {
  first_linked = refl;
  first_pending = refl;
  gets = λ f c. refl;
  sets = λ f v c. refl;
  expires = λ f n c. refl;
  replies = λ c e. rw e refl;
  commits = λ c e. rw e refl;
}

abbrev account : Text
account = 49 ∷ 50 ∷ []

-- After `disconnect` the thread keeps its client and does not connect it again: nothing is read.
after_disconnect :
    (get client account [] (disconnect client (set client account (97 ∷ []) 0 none))).0 ≡ []
unfolding get set disconnect opened take_replies
after_disconnect = refl
