-- ===== src/Tests/Watches.antt =====
-- A server that sees its successor leave.
use kv_storage_service.Common.{◌≡◌, refl, none, some, [], ◌∷◌, List, true}
use kv_storage_service.Machine.{Heap, IsAmple}
use kv_storage_service.Text.{Str}
use kv_storage_service.Address.{Rtable}
use kv_storage_service.Address.Connect.{address_of, connected}
use kv_storage_service.Joining.Watch.{Event, watch, wanted, watch_lem}
use kv_storage_service.Chain.{Chain}
use kv_storage_service.Tests.Chains.{last}
use kv_storage_service.Tests.Joins.{host, here, here-Reaches, glibc_usable, glibc_usable-roomy}
use kv_storage_service.Tests.Members.{nodes, node1}
use kv_storage_service.Tests.Tables.{fresh}

abbrev change : List Str → Event
change children = record { connected_state = true; child_event = true; listed = some children }

abbrev servers : Str → Rtable (Chain 1)
servers node = connected host 8080 last

watch_example :
    (h' : Heap) × (watch here
        (λ path. some (address_of host 8080))
        glibc_usable
        node1
        (change nodes ∷ change (node1 ∷ []) ∷ [])
        none
        fresh
      ≡ some (
        wanted here
            (λ path. some (address_of host 8080))
            glibc_usable
            node1
            servers
            (change nodes ∷ change (node1 ∷ []) ∷ [])
            none,
        h',
      ))
    × IsAmple h'
watch_example =
    watch_lem here (λ path. some (address_of host 8080)) glibc_usable node1 glibc_usable-roomy
      servers (change nodes ∷ change (node1 ∷ []) ∷ []) none fresh
      (
        (λ e. (nodes, (refl, λ node i. (host, 8080, last, refl, here-Reaches, refl)))),
        ((λ e. (node1 ∷ [], (refl, λ node i. (host, 8080, last, refl, here-Reaches, refl)))), tt),
      )
      tt refl
