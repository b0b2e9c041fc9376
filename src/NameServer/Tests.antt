-- ===== src/NameServer/Tests.antt =====
-- Tests and witnesses of the name server.
use opx_cps.Common.{◌∷◌, ℕ, ◌≡◌, refl, true, false, arith, List, [], some, replicate}
use opx_cps.Key.{Key}
use opx_cps.KeyCache.{Entry, Cache, find_entry, same}
use opx_cps.KeyCache.Walk.{NoneEmpty, All}
use opx_cps.NameServer.{
  ClientReg, Stats, Out, Ns, Reply, results, process_registration, process_query, close_bucket,
  client_closed, set_find, set_insert,
}
use opx_cps.NameServer.Buckets.{Regs, closed, told_closed, close_bucket_lem}
use opx_cps.NameServer.Gone.{Single, Gone, client_closed-Gone}

-- The details are a number, which is the one element of the key; all keys fall into one bucket.
abbrev key_of : ℕ → Key
key_of n = record { len = 1; attr = 0; slots = n ∷ replicate 61 0 }

abbrev hash : ℕ → ℕ
hash n = 0

abbrev stats : Stats
stats = record {
  set_count = 0;
  get_count = 0;
  event_send = 0;
  close_count = 0;
  close_cleanup_runs = 0;
}

abbrev out : Out
out = record { stats = stats; events = [] }

abbrev started : Ns ℕ
started = record { registration = []; reg_created = []; out = out }

abbrev reg : ℕ → ℕ → ClientReg ℕ
reg d fd = record { details = d; fd = fd; count = 0 }

abbrev entry : ℕ → List (ClientReg ℕ) → Regs ℕ
entry d rs = record { key = key_of d; allocated = true; value = rs }

-- Two keys of client 4 in one bucket: the second one is passed over.
abbrev colliding : List (Regs ℕ)
colliding = entry 7 (reg 7 4 ∷ []) ∷ entry 9 (reg 9 4 ∷ []) ∷ []

passed_over_test : closed 4 colliding ≡ entry 9 (reg 9 4 ∷ []) ∷ []
unfolding closed opx_cps.NameServer.Closed.kept opx_cps.NameServer.Buckets.closed_tail
    opx_cps.NameServer.Buckets.clear_all
passed_over_test = refl

abbrev two_clients : Ns ℕ
two_clients = record {
  registration = (0, entry 7 (reg 7 4 ∷ reg 7 5 ∷ []) ∷ []) ∷ (1, entry 9 (reg 9 4 ∷ []) ∷ []) ∷ [];
  reg_created = 4 ∷ 5 ∷ [];
  out = out;
}

client_closed-Gone_example :
    (s' : Ns ℕ) × (client_closed 7 4 two_clients ≡ some s')
    × All (λ b. Single b × Gone 4 b) s'.registration
    × NoneEmpty (close_bucket 4) s'.registration
    × (set_find 4 s'.reg_created ≡ false)
client_closed-Gone_example =
    client_closed-Gone 7 4 two_clients (omega arith) (unfold set_find in refl)
      (omega arith, (omega arith, tt))

abbrev one_registered : Ns ℕ
one_registered = (process_registration hash key_of 8 4 8 (some 7) started).1

one_registered_test : (process_query hash key_of 8 (key_of 7) one_registered).0 ≡ results 7
unfolding process_query opx_cps.KeyCache.bucket process_registration opx_cps.NameServer.add_reg
    opx_cps.KeyCache.insert opx_cps.KeyCache.push_back opx_cps.Key.hash_array
    opx_cps.KeyCache.position opx_cps.Key.key_array_matches opx_cps.Key.memcmp opx_cps.Key.bytes
    opx_cps.NameServer.reply_from opx_cps.KeyCache.entry_at
one_registered_test = refl
