-- ===== src/Chain/Get.antt =====
-- A read at the last server of a chain.
use kv_storage_service.Common.{ap, ℕ, suc, ◌≡◌, ◌∙◌, some}
use kv_storage_service.Machine.{Heap, IsAmple, is_null}
use kv_storage_service.Text.{Str}
use kv_storage_service.Table.Hash.{IsPlain}
use kv_storage_service.Table.View.{Contents, view}
use kv_storage_service.Skeleton.{Outside}
use kv_storage_service.Invoke.Shared.{counting, left}
use kv_storage_service.Invoke.Get.{get_message, get_reply, invoke_get_lem}
use kv_storage_service.Chain.Last.{serve_last-reads}
use kv_storage_service.Chain.{Chain, Fits, serve, serve_last, Ready}

module _ (clock : Outside) (k : Str) (p : IsPlain k) (asks : Fits clock (get_message k)) where
  -- For an ASCII key whose characters add up to an int, where malloc refuses nothing and all servers
  -- of the chain have valid tables with the same contents, room for m + 1 more entries and
  -- statistics with room for as many operations: the last server answers a read with the bytes that
  -- these contents have under the key, or with the error where they have none, and all servers keep
  -- their contents and room for m more.
  pub serve_last-get :
      (m n : ℕ) (f : Contents) (c : Chain n) (h : Heap)
      → Fits clock (get_reply (get_message k) (f k))
      → Ready (suc m) n f clock c
      → IsAmple h
      → (c' : Chain n) × (h' : Heap) × (serve_last n clock c (get_message k) h
          ≡ some ((some (get_reply (get_message k) (f k)), c'), h'))
        × Ready m n f clock c'
        × IsAmple h'
  serve_last-get m n f c h answers ready full =
      let (reply, c', h', run, right, after, full') =
        serve_last-reads clock (get_message k) m f (λ r. r ≡ get_reply (get_message k) (f k)) asks n
          c h
          (λ n s bs h e t same room budget full.
            let (s', h', run, table, lock, next, stats, full') =
              invoke_get_lem (serve n clock) clock s bs k h e t p full (counting budget) in
            (
              get_reply (get_message k) (view bs k),
              s',
              h',
              run,
              ap (get_reply (get_message k)) (same k),
              rw (same k) answers,
              table,
              next,
              lock,
              left budget (is_null (view bs k)) stats,
              full',
            ))
          ready full in
      (c', h', run ∙ ap (λ r. some ((some r, c'), h')) right, after, full')
