-- ===== src/Tests/Ends.antt =====
-- A client that connects to a chain of three nodes.
use kv_storage_service.Common.{◌≡◌, refl, none, some, [], ◌∷◌, true, arith}
use kv_storage_service.Machine.{Heap}
use kv_storage_service.Text.{Str}
use kv_storage_service.Address.Connect.{address_of, connected}
use kv_storage_service.Members.{find_successor, find_antecessor}
use kv_storage_service.Members.Choice.{IsIn}
use kv_storage_service.Ends.{child_watcher}
use kv_storage_service.Ends.Connect.{child_watcher-ends}
use kv_storage_service.Tests.Chains.{last}
use kv_storage_service.Tests.Joins.{host, here, here-Reaches, glibc_usable, glibc_usable-roomy}
use kv_storage_service.Tests.Members.{nodes, node1, node2, node3}
use kv_storage_service.Tests.Tables.{fresh}

child_watcher_example :
    (least greatest : Str) × (h' : Heap) × (child_watcher here
        (λ path. some (address_of host 8080))
        glibc_usable
        true
        true
        (some nodes)
        none
        (some (connected host 9090 last))
        fresh
      ≡ some ((some (connected host 8080 last), some (connected host 8080 last)), h'))
    × IsIn least nodes
    × IsIn greatest nodes
    × (find_antecessor least nodes none ≡ none)
    × (find_successor greatest nodes none ≡ none)
child_watcher_example =
    child_watcher-ends here (λ path. some (address_of host 8080)) glibc_usable glibc_usable-roomy
      node2 (node3 ∷ node1 ∷ []) (λ node. connected host 8080 last) none
      (some (connected host 9090 last)) fresh
      (λ node i. (host, 8080, last, refl, here-Reaches, refl)) tt
      (record {
        host = host;
        port = 9090;
        fd = last;
        address = refl;
        part = ((omega arith), tt);
        dotted = omega arith;
        number = refl;
        port_lt = omega arith;
        opened = refl;
      })
      refl
