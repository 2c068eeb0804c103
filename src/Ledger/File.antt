-- ===== src/Ledger/File.antt =====
-- save_to_file and load_from_file of src/core/ledger/ledger.cpp, over the bytes of the file. Opening
-- and closing it is left out. `none` is a file that ends before its counts say, where the source goes
-- on with what its variables and buffers happen to hold.
use cashew.Prelude.{ℕ, zero, suc, Bytes, Option, none, some, List, [], ◌∷◌, ◌++◌, length, ◌>>=◌}
use cashew.Crypto.{Crypto}
use cashew.Codec.{le_bytes, read_scalar, read_blob}
use cashew.Ledger.Event.{LedgerEvent, to_bytes, from_bytes}
use cashew.Ledger.Index
use cashew.Ledger.Store.{Ledger, add_event}

unfoldable pub saved_events : List LedgerEvent → Bytes
saved_events [] = []
saved_events (e ∷ es) = le_bytes 4 (length (to_bytes e)) ++ (to_bytes e ++ saved_events es)

unfoldable pub save_to_file : Ledger → Bytes
unfolding saved_events
save_to_file l = le_bytes 8 (length l.events) ++ saved_events l.events

-- the state is cleared but for latest_hash_ and event_counter_
unfoldable pub clear : Ledger → Ledger
clear l = record l { events = []; event_lookup = []; index = Index.empty }

-- one event of the file; what from_bytes or add_event refuses is skipped
unfoldable pub load_event : Crypto → ℕ → Bytes → Ledger → Ledger
load_event crypto now bytes l = elim (from_bytes bytes) [
  | none ↦ l
  | some e ↦ (add_event crypto now e l).0
]

-- the loop, over the events left
unfoldable pub load_events : Crypto → ℕ → ℕ → Bytes → Ledger → Option Ledger
load_events crypto now zero ahead l = some l
load_events crypto now (suc count) ahead l = do
  (size, a₁) ← read_scalar 4 ahead
  (bytes, a₂) ← read_blob size a₁
  load_events crypto now count a₂ (load_event crypto now bytes l)

unfoldable pub load_from_file : Crypto → ℕ → Bytes → Ledger → Option Ledger
unfolding clear
load_from_file crypto now file l = do
  (count, ahead) ← read_scalar 8 file
  load_events crypto now count ahead (clear l)
