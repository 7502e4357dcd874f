-- ===== src/Tests/DalRuns.antt =====
-- Runs of the theorems on the data access layer.
use crm_multi_tenant_saas_ar.Prelude.{
  ℕ, zero, suc, ◌+◌, ◌≡◌, ◌≢◌, ◌≤◌, ◌<◌, refl, true, String, some, List, [], ◌∷◌, arith, length,
}
use crm_multi_tenant_saas_ar.Prelude.Dict.{Dict, lookup, insert, remove}
use crm_multi_tenant_saas_ar.Dal.Context.{
  run, require_tenant_id, query_limit, get_tenant_id, get_tier, increment, increment_query_count,
}
use crm_multi_tenant_saas_ar.Dal.Uuid.{is_uuid, uuid_rest, hex_run, is_hex, dash}
use crm_multi_tenant_saas_ar.Dal.Quota.{
  Slot, Slots, no_slots, find_slot, write, place, Poll, round, entered, pending, acquire,
  acquire_loop, register, tier_cap, is_registered,
}
use crm_multi_tenant_saas_ar.Dal.Quota.Waiting.{Timely, acquire-ne-pending, acquire-within}
use crm_multi_tenant_saas_ar.Dal.Quota.Requests.{
  System, Waiter, Reach, idle, here, next, arrive, request, wake, call, attempt, after_round,
}
use crm_multi_tenant_saas_ar.Dal.Quota.Runs.{Fair, Reach-Fair}
use crm_multi_tenant_saas_ar.Dal.Interceptor.{
  Connection, State, handed, acquire_connection, scope_session, ensure_registered, after_quota,
  count_query,
}
use crm_multi_tenant_saas_ar.Dal.Interceptor.Scope.{acquire_connection-scoped}
use crm_multi_tenant_saas_ar.Dal.Interceptor.Budget.{take, run_uses, run_uses-le-limit}
use crm_multi_tenant_saas_ar.Dal.Cache.{
  key_of, build_key, get, set, scan_keys, flush_tenant, lookup_key, del_all,
}
use crm_multi_tenant_saas_ar.Dal.Cache.Isolation.{get-set_other}
use crm_multi_tenant_saas_ar.Tests.Samples.{
  memory, id_a, id_b, id_a-is_uuid, id_b-is_uuid, ids_differ, store_a, store_b,
}

-- The cache.
abbrev cached : Dict String
cached = (key_of id_a "customers" "7", "Ada") ∷ []

stored_a : set (memory String) (some store_a) "customers" "7" "Ada" 300 [] ≡ some cached
unfolding set build_key require_tenant_id insert
stored_a = refl

get-set_other_example :
    get (memory String) (some store_b) "customers" "7" cached
    ≡ get (memory String) (some store_b) "customers" "7" []
get-set_other_example =
    get-set_other (memory String) store_a store_b "customers" "7" "customers" "7" "Ada" 300 []
      cached id_a-is_uuid id_b-is_uuid ids_differ stored_a

abbrev two_replies : List (String × List String)
two_replies = ("17", "t:x:a" ∷ []) ∷ ("0", "t:x:b" ∷ []) ∷ []

abbrev one_reply : List (String × List String)
one_reply = ("0", "rl:x:1" ∷ []) ∷ []

abbrev before_flush : Dict String
before_flush = ("t:x:b", "1") ∷ ("t:y:b", "2") ∷ []

abbrev after_flush : Dict String
after_flush = ("t:y:b", "2") ∷ []

flushed : flush_tenant (memory String) "x" two_replies one_reply before_flush ≡ some after_flush
unfolding flush_tenant scan_keys del_all lookup_key remove
flushed = refl

-- The quota.
abbrev full : Slot
full = record { current = 10; max = 10 }

abbrev room : Slot
room = record { current = 9; max = 10 }

-- One tenant, with one object.
abbrev slots_of : Slot → Slots
slots_of slot = record { entries = (id_b, 0) ∷ []; objects = λ _. slot; next_object = 1 }

found_full : find_slot id_b (slots_of full) ≡ some 0
unfolding lookup
found_full = refl

-- While the call waits the tenant leaves, and a connection of the captured object is given back.
abbrev departed : Slots
departed = record { entries = []; objects = λ _. room; next_object = 1 }

waited :
    acquire id_b 0 (record { now = 50; slots = departed } ∷ []) (slots_of full)
    ≡ entered (write 0 full departed)
unfolding acquire acquire_loop round lookup
waited = refl

acquire-within_example :
    (0 < ((write 0 full departed).objects 0).current)
    × (((write 0 full departed).objects 0).current ≤ ((write 0 full departed).objects 0).max)
acquire-within_example =
    acquire-within id_b 0 0 (record { now = 50; slots = departed } ∷ []) (slots_of full)
      (write 0 full departed) found_full waited

-- Rounds of 50 ms over a slot that stays full.
abbrev rounds : ℕ → ℕ → List Poll
rounds zero t = []
rounds (suc n) t = record { now = t + 50; slots = slots_of full } ∷ rounds n (t + 50)

rounds-Timely : (n t : ℕ) → Timely t (rounds n t) × (length (rounds n t) ≡ n)
rounds-Timely zero t = (tt, refl)
rounds-Timely (suc n) t =
    let ih = rounds-Timely n (t + 50) in ((omega arith, ih.0), omega (arith, ih.1))

acquire-ne-pending_example : acquire id_b 0 (rounds 100 0) (slots_of full) ≢ pending
acquire-ne-pending_example =
    acquire-ne-pending id_b 0 (rounds 100 0) (slots_of full) (rounds-Timely 100 0).0
      (omega (arith, (rounds-Timely 100 0).1))

-- A tenant is seen and makes eleven calls, of which the last one sleeps; then it is registered anew,
-- a connection is given back, and the sleeper wakes up.
abbrev calls : ℕ → System → System
calls zero s = s
calls (suc n) s = call n id_b (calls n s)

calls-Reach : (n : ℕ) (s : System) → Reach idle s → Reach idle (calls n s)
calls-Reach zero s r = r
calls-Reach (suc n) s r = next (calls-Reach n s r) (request n id_b)

abbrev arrived : System
arrived = record idle { slots = register id_b "basic" no_slots }

abbrev crowded : System
crowded = calls 11 arrived

abbrev anew : System
anew = record crowded { slots = register id_b "basic" crowded.slots }

abbrev sleeper : Waiter
sleeper = record { tenant_id = id_b; object = 0; deadline = 5010 }

one_sleeps : anew.waiting ≡ sleeper ∷ []
unfolding call attempt after_round round register place write tier_cap lookup insert
one_sleeps = refl

abbrev woken : System
woken = attempt 60 sleeper (record anew { waiting = [] })

many_steps : Reach idle woken
many_steps =
    next (next (calls-Reach 11 arrived (next here (arrive id_b "basic"))) (arrive id_b "basic"))
      (wake 60 sleeper [] [] one_sleeps)

Reach-Fair_example : Fair woken
Reach-Fair_example = Reach-Fair many_steps

-- The interceptor.
abbrev clean : Connection
clean = record { app_tenant_id = "" }

abbrev scoped_a : Connection
scoped_a = record { app_tenant_id = id_a }

abbrev state_a : State
state_a = record { store = some store_a; slots = no_slots; taken = 0 }

abbrev state_a_after : State
state_a_after = record {
  store = some (record store_a { query_count = 4 });
  slots = write 0 (record { current = 1; max = 20 }) (register id_a "premium" no_slots);
  taken = 1;
}

acquired_a : acquire_connection 0 [] clean state_a ≡ (state_a_after, handed scoped_a)
unfolding acquire_connection scope_session ensure_registered after_quota count_query get_tenant_id
    get_tier is_registered register place write tier_cap acquire acquire_loop round increment
    increment_query_count lookup insert is_uuid uuid_rest hex_run is_hex dash
acquired_a = refl

acquire_connection-scoped_example :
    (id_a ≡ store_a.tenant_id)
    × (is_uuid store_a.tenant_id ≡ true)
    × (store_a.query_count + 1 ≤ query_limit)
    × (some (record store_a { query_count = 4 })
        ≡ some (record store_a { query_count = store_a.query_count + 1 }))
acquire_connection-scoped_example =
    acquire_connection-scoped 0 [] clean scoped_a state_a state_a_after store_a refl refl acquired_a

abbrev fresh_state : State
fresh_state = record { store = some (run id_a "premium"); slots = no_slots; taken = 0 }

run_uses-le-limit_example :
    (run_uses (take 0 [] clean ∷ take 0 [] clean ∷ []) fresh_state).1 ≤ query_limit
run_uses-le-limit_example =
    run_uses-le-limit (take 0 [] clean ∷ take 0 [] clean ∷ []) fresh_state id_a "premium" refl
