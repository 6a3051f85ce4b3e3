-- ===== src/Tests/Chains.antt =====
-- Two servers in a chain, a put and a removal at the head, and a get at the last one.
use kv_storage_service.Common.{
  ℕ, zero, suc, ◌<◌, ◌≤◌, if◌then◌else◌, ◌≡◌, refl, none, some, [], ◌∷◌, pos, ◌+ℤ◌, ◌-ℤ◌, ◌*ℤ◌,
  arith,
}
use kv_storage_service.Machine.{is_null, Heap, IsAmple}
use kv_storage_service.RwLock.{Lock, write_waits}
use kv_storage_service.Stats.{Stats}
use kv_storage_service.Table.View.{total, table_of, update, view}
use kv_storage_service.Message.{op_put, ct_none}
use kv_storage_service.Skeleton.{Outside, interval, accept}
use kv_storage_service.Invoke.Shared.{Budget, counted, work, IsCounting, put_message}
use kv_storage_service.Invoke.{invoke}
use kv_storage_service.Invoke.Get.{get_message, get_reply, invoke_get_lem}
use kv_storage_service.Invoke.Del.{del_message, del_reply}
use kv_storage_service.Chain.{Chain, serve, Ready}
use kv_storage_service.Chain.Put.{serve-put}
use kv_storage_service.Chain.Del.{serve-del}
use kv_storage_service.Tests.Tables.{fresh, ab, one_entry, ab-IsPlain, one_entry-IsTable}

abbrev pub clock : Outside
clock = record {
  start = record { tv_sec = pos 10; tv_usec = pos 900000 };
  finish = record { tv_sec = pos 11; tv_usec = pos 100 };
  packed = λ msg. 100;
}

abbrev pub counters : Stats
counters = record { n_operations = pos 4; total_time = pos 1000; n_clients = pos 1 }

abbrev pub free_lock : Lock
free_lock = record { n_readers = pos 0; n_writers = pos 0 }

abbrev pub last : Chain 1
last = record {
  table = some (table_of one_entry);
  stats = some counters;
  lock = free_lock;
  next_server = none;
}

abbrev pub head : Chain 2
head = record {
  table = some (table_of one_entry);
  stats = some counters;
  lock = free_lock;
  next_server = some last;
}

pub counters-IsCounting : IsCounting clock (some counters)
unfolding interval ◌+ℤ◌ ◌-ℤ◌ ◌*ℤ◌
counters-IsCounting = record {
  operations = 4;
  time = 1000;
  clients = pos 1;
  there = refl;
  operations_lt = omega arith;
  taken = 100100;
  taken_eq = refl;
  time_fits = omega arith;
}

-- Room for n operations, of a tenth of a second each.
work-le : (n m t : ℕ) → n ≤ m → work n t ≤ work m t
work-le zero m t le = omega arith
work-le (suc n) zero t le = absurd (omega arith)
work-le (suc n) (suc m) t le = omega (arith, work-le n m t)

pub counters-Budget : (n : ℕ) → n < 10 → Budget clock n (some counters)
unfolding interval ◌+ℤ◌ ◌-ℤ◌ ◌*ℤ◌
counters-Budget n lt = record {
  operations = 4;
  time = 1000;
  clients = pos 1;
  there = refl;
  operations_le = omega (arith, lt);
  taken = 100100;
  taken_eq = refl;
  time_fits = omega (arith, work-le n 10 100100, lt);
}

pub head-Ready : (m : ℕ) → m < 10 → Ready m 2 (view one_entry) clock head
unfolding total write_waits
head-Ready m lt = (
  one_entry,
  refl,
  one_entry-IsTable,
  (λ q. refl),
  omega arith,
  counters-Budget m lt,
  refl,
  (one_entry, refl, one_entry-IsTable, (λ q. refl), omega arith, counters-Budget m lt, refl, tt),
)

serve-put_example :
    (c' : Chain 2) × (h' : Heap) × (serve 2 clock head (put_message ab (9 ∷ [])) fresh
      ≡ some ((some (accept (put_message ab (9 ∷ [])) op_put ct_none), c'), h'))
    × Ready 1 2 (update (view one_entry) ab (some (9 ∷ []))) clock c'
    × IsAmple h'
serve-put_example =
    serve-put clock ab (9 ∷ []) ab-IsPlain (omega arith) (omega arith) (omega arith) (omega arith) 1
      2 (view one_entry) head fresh (head-Ready 2 (omega arith)) refl

-- OP_GET at the last server, which has no next one to pass anything on to.
invoke_get_example :
    (s' : Chain 1) × (h' : Heap) × (invoke (serve 0 clock) clock (some (get_message ab)) last fresh
      ≡ some ((pos 0, some (get_reply (get_message ab) (view one_entry ab)), s'), h'))
    × (s'.table ≡ last.table)
    × (s'.lock ≡ last.lock)
    × (s'.next_server ≡ last.next_server)
    × (s'.stats
        ≡ (if is_null (view one_entry ab) then last.stats else some (counted counters-IsCounting)))
    × IsAmple h'
invoke_get_example =
    invoke_get_lem (serve 0 clock) clock last one_entry ab fresh refl one_entry-IsTable ab-IsPlain
      refl counters-IsCounting

serve-del_example :
    (c' : Chain 2) × (h' : Heap) × (serve 2 clock head (del_message ab) fresh
      ≡ some ((some (del_reply ab (view one_entry ab)), c'), h'))
    × Ready 1 2 (update (view one_entry) ab none) clock c'
    × (h'.answers ≡ fresh.answers)
serve-del_example =
    serve-del clock ab ab-IsPlain (omega arith) 1 2 (view one_entry) head fresh (omega arith)
      (head-Ready 2 (omega arith))
