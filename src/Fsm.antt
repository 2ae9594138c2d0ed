-- ===== src/Fsm.antt =====
-- fsm.go: `encodeCommand` and `decodeCommand` are the fields of `Gob`; `(*fsm).Apply`.
pub mod Apply
pub mod Replay
use honeybadger.Base.{ℕ, Bytes, true, false, ltb, List, [], ◌∷◌, if◌then◌else◌}
use honeybadger.Errors.{Error, Result, ok, err, done, closed, wrap_at, wrap, errors_is, ◌>>=◌}
use honeybadger.Command.{CommandPair, Command, LogEntry, Gob}
use honeybadger.Badger.{Badger, Entry}
use honeybadger.Node.{Node, print_line, with_store}

-- `encodeCommand`: an error of the encoder comes back wrapped.
unfoldable pub encode_command : Gob → Command → Result Bytes
encode_command G cmd = elim (G.encode cmd) [
  | ok b ↦ ok b
  | err e ↦ err (wrap "honeybadger: encode command" e)
]

unfoldable pub decode_command : Gob → Bytes → Result Command
decode_command G b = G.decode b

-- `badger.NewEntry`, and the expiry where the pair has one.
unfoldable pub new_entry : CommandPair → Entry
new_entry p =
    let entry : Entry = record { key = p.key; value = p.value; expires_at = 0 } in
    if ltb 0 p.expires_at_unix then record entry { expires_at = p.expires_at_unix } else entry

module _ (B : Badger) where
  -- The loop over `cmd.Pairs`.
  unfoldable pub set_pairs : List CommandPair → B.Txn → Result B.Txn
  set_pairs [] txn = ok txn
  set_pairs (p ∷ ps) txn = do txn' ← B.set_entry txn (new_entry p); set_pairs ps txn'

  -- The loop over `cmd.Deletes`.
  unfoldable pub delete_keys : List Bytes → B.Txn → Result B.Txn
  delete_keys [] txn = ok txn
  delete_keys (key ∷ keys) txn = do txn' ← B.delete txn key; delete_keys keys txn'

  -- The callback of `b.Update`.
  unfoldable pub write_command : Command → B.Txn → Result B.Txn
  write_command cmd txn = do txn' ← set_pairs cmd.pairs txn; delete_keys cmd.deletes txn'

-- What `Apply` does with the result of `withStore`.
unfoldable pub finish :
    {B : Badger} → LogEntry → Result (Unit {0}) → Node B → Result (Unit {0}) × Node B
finish l (ok _) n = (done, record n { applied_index = l.index })
finish l (err cause) n =
    let e = wrap_at "honeybadger: apply command at index" l.index cause in
    (err e, if errors_is e closed then n else print_line e n)

module _ (G : Gob) (B : Badger) where
  -- `(*fsm).Apply`: the response, and the node.
  unfoldable pub apply : LogEntry → Node B → Result (Unit {0}) × Node B
  unfolding decode_command
  apply l n = elim (decode_command G l.content) [
    | ok cmd ↦ let (r, n') = with_store (B.update (write_command B cmd)) n in finish l r n'
    | err cause ↦
        let e = wrap_at "honeybadger: decode command at index" l.index cause in
        (err e, print_line e n)
  ]

  -- Raft applies committed entries one after another, whatever they return.
  unfoldable pub apply_log : List LogEntry → Node B → Node B
  apply_log [] n = n
  apply_log (l ∷ ls) n = apply_log ls (apply l n).1
