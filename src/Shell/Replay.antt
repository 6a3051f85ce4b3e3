-- ===== src/Shell/Replay.antt =====
-- What a session of the client of source/client_hashtable.c prints.
use kv_storage_service.Common.{Option, none, some, List, [], ◌∷◌, ◌++◌, if◌then◌else◌}
use kv_storage_service.Machine.{is_null}
use kv_storage_service.Block.{Bytes}
use kv_storage_service.Table.View.{Contents, update}
use kv_storage_service.Printing.{
  Output, prompt, newline, bytes, put_done, get_failed, del_failed, del_done,
}
use kv_storage_service.Shell.Lines.{Request, store, read, remove}

-- what a get prints
abbrev pub shown : Option Bytes → List Output
shown none = get_failed ∷ newline ∷ []
shown (some v) = bytes v ∷ newline ∷ newline ∷ []

-- what a removal prints
abbrev pub dropped : Option Bytes → List Output
dropped o = (if is_null o then del_failed else del_done) ∷ newline ∷ []

-- What the requests, in their order, print on one map.
abbrev pub replay : Contents → List Request → List Output
replay f [] = []
replay f (store k v ∷ rs) = prompt ∷ put_done ∷ newline ∷ replay (update f k (some v)) rs
replay f (read k ∷ rs) = prompt ∷ shown (f k) ++ replay f rs
replay f (remove k ∷ rs) = prompt ∷ dropped (f k) ++ replay (update f k none) rs

-- The map after the requests.
abbrev pub outcome : Contents → List Request → Contents
outcome f [] = f
outcome f (store k v ∷ rs) = outcome (update f k (some v)) rs
outcome f (read k ∷ rs) = outcome f rs
outcome f (remove k ∷ rs) = outcome (update f k none) rs
