-- ===== src/Replicas/Reads.antt =====
-- Linearizable reads against the replicated log, on any node.
use honeybadger.Base.{
  ℕ, Bytes, bytes_eq_refl, Option, is_empty, Bool-cases, inl, inr, ltb, ◌==◌, ◌≡◌, refl, sym, ap,
  ◌∙◌, true, false, ◌||◌, none, some, List, [], ◌∷◌, ◌++◌, arith, subst,
}
use mathlib.Core.List.{append-nil, append_assoc}
use honeybadger.Errors.{ok, Result-cases}
use honeybadger.Badger.{Badger, Stored, TxnLaws, ReadLaws, DiskLaws, visible}
use honeybadger.Raft.{Raft}
use honeybadger.Command.{Command, LogEntry, Gob}
use honeybadger.Command.Effect.{
  written, written_log, last_pair, after_log-written, written_log-append,
}
use honeybadger.Options.{SetOption, ReadOptions, read_linearizable, resolve_set_options}
use honeybadger.Batch.{set_command}
use honeybadger.Fsm.{apply_log}
use honeybadger.Fsm.Apply.{contents}
use honeybadger.Persist.{Sink, SinkLaws}
use honeybadger.Db.{Db, is_leader}
use honeybadger.Read.{get_bytes}
use honeybadger.Read.Point.{read_clock}
use honeybadger.Read.Barrier.{awaited, get_bytes_linearizable}
use honeybadger.Open.{Host}
use honeybadger.Replicas.{
  Replica, Cluster, IsNew, deliver_entry, decoded_entry, decoded, effect, Reach,
}
use honeybadger.Replicas.Invariant.{Tracks, effect-append}
use honeybadger.Replicas.Moves.{deliver_entry-Tracks, Reach-IsSound}
use honeybadger.Replicas.Agreement.{Tracks-whole}

-- Raft hands over several entries.
abbrev pub deliver_log : (G : Gob) (B : Badger) → List LogEntry → Replica B → Replica B
deliver_log G B [] r = r
deliver_log G B (l ∷ ls) r = deliver_log G B ls (deliver_entry G B l r)

-- The command of a Set leaves the value under its key.
written-set_command :
    (now : ℕ) (key value : Bytes) (opts : List SetOption) (cmd : Command)
    → set_command now key value opts ≡ ok cmd
    → (e : ℕ) × (written cmd key ≡ some (some (record { value = value; expires_at = e })))
unfolding set_command written last_pair
written-set_command now key value opts cmd built = elim (Bool-cases (is_empty key)) [
  | inl empty ↦ absurd (ground arith)
  | inr filled ↦ elim (Result-cases (resolve_set_options now opts)) [
    | inr (e, failed) ↦ absurd (ground arith)
    | inl (e, resolved) ↦ (e, ground (arith, bytes_eq_refl key))
  ]
]

value_of_visible : (now : ℕ) (v w : Stored) → visible now (some v) ≡ some w → w.value ≡ v.value
value_of_visible now v w h = elim (Bool-cases ((v.expires_at == 0) || ltb now v.expires_at)) [
  | inl live ↦ let same : w ≡ v = ground arith in ap (λ (x : Stored). x.value) same
  | inr expired ↦ absurd (ground arith)
]

module _ {B : Badger} (G : Gob) where
  lost-deliver_log :
      (ls : List LogEntry) (r : Replica B) → (deliver_log G B ls r).lost ≡ false → r.lost ≡ false
  lost-deliver_log [] r h = h
  lost-deliver_log (l ∷ ls) r h =
      let sooner = lost-deliver_log ls (deliver_entry G B l r) h in ground arith

module _ {B : Badger} {L : TxnLaws B} (D : DiskLaws B L) (G : Gob) where
  deliver_log-Tracks :
      (log : List LogEntry) (ls : List LogEntry) (r : Replica B)
      → log ≡ r.passed ++ ls
      → Tracks G log r.passed (contents B L r.node)
      → (deliver_log G B ls r).lost ≡ false
      → Tracks G log (r.passed ++ ls) (contents B L (apply_log G B ls r.node))
  unfolding apply_log
  deliver_log-Tracks log [] r at tracks fine =
      subst (λ passed. Tracks G log passed (contents B L r.node)) (sym (append-nil r.passed)) tracks
  deliver_log-Tracks log (l ∷ ls) r at tracks fine =
      let r' = deliver_entry G B l r in
      let sooner : r'.lost ≡ false = lost-deliver_log G ls r' fine in
      let assoc = append_assoc r.passed (l ∷ []) ls in
      subst (λ passed. Tracks G log passed (contents B L (apply_log G B ls r'.node))) assoc
        (deliver_log-Tracks log ls r' (at ∙ sym assoc)
          (deliver_entry-Tracks D G log r l ls at (λ _. tracks) sooner) fine)

  -- What a write at the end of the log leaves under its key, entries that do not write the key
  -- aside.
  effect-last_write :
      (earlier later : List LogEntry) (l : LogEntry) (cmd : Command) (key : Bytes)
      → G.decode l.content ≡ ok cmd
      → written_log (decoded G later) key ≡ none
      → (v : Stored) → written cmd key ≡ some (some v)
      → effect G (earlier ++ (l ∷ later)) key ≡ some v
  unfolding written_log
  effect-last_write earlier later l cmd key read untouched v last =
      let before = effect G earlier in
      ap (λ (c : Bytes → Option Stored). c key) (effect-append G earlier (l ∷ later))
      ∙ after_log-written (decoded G (l ∷ later)) before key
      ∙ ground (arith, written_log-append (decoded_entry G l) (decoded G later) key)

  module _ (Q : ReadLaws B L) {R : Raft} (H : Host B R) {K : Sink} (KL : SinkLaws K) where
    -- Linearizable reads, over the whole cluster. A linearizable read on any node that returns a
    -- value was served by a leader, and the value is what is visible, by the clock of the read, in
    -- the one store that the commands of the log lead to: if its barrier waited for the rest of the
    -- log, as Raft documents, and the node's FSM has failed at nothing that it was asked.
    pub get_bytes-effect :
        {s t : Cluster B} (i : ℕ) (db : Db B R) (key : Bytes) (ro : ReadOptions) (b : Bytes)
        → IsNew L s
        → Reach D G H KL s t
        → (t.replicas i).node ≡ db.node
        → t.log ≡ (t.replicas i).passed ++ awaited R G ro db
        → (deliver_log G B (awaited R G ro db) (t.replicas i)).lost ≡ false
        → ro.mode ≡ read_linearizable
        → (get_bytes G key ro db).0 ≡ ok b
        → (is_leader (R.state db.raft).0 ≡ true)
          × ((d : B.Db) × ((v : Stored) × (visible (read_clock B L Q d) (effect G t.log key)
                  ≡ some v)
                × (v.value ≡ b)))
    get_bytes-effect {t = t} i db key ro b new path same barrier fine mode got =
        let r = t.replicas i in
        let ls = awaited R G ro db in
        let (leads, (d, live, (v, seen, value))) =
          get_bytes_linearizable R G L Q key ro db b mode got in
        let sound = Reach-IsSound D G H KL new path in
        let tracks =
          deliver_log-Tracks t.log ls r barrier (sound.tracked i (lost-deliver_log G ls r fine))
            fine in
        let m = contents B L (apply_log G B ls r.node) in
        let level : m key ≡ effect G t.log key =
          Tracks-whole G t.log m (subst (λ passed. Tracks G t.log passed m) (sym barrier) tracks)
            key in
        let there : (apply_log G B ls r.node).store ≡ some d =
          ap (λ n. (apply_log G B ls n).store) same ∙ live in
        let stored : L.stored d key ≡ m key = rw there refl in
        (leads, (d, (v, ap (visible (read_clock B L Q d)) (sym level ∙ sym stored) ∙ seen, value)))

    -- Reads see writes, on whichever nodes. If the log holds the entry of a Set and no later entry
    -- that writes the key, a linearizable read of the key on any node that returns a value returns
    -- the one that was set, under the same conditions.
    pub get_bytes-set_command :
        {s t : Cluster B} (i : ℕ) (db : Db B R) (key : Bytes) (ro : ReadOptions) (b value : Bytes)
        (now : ℕ) (opts : List SetOption) (cmd : Command) (earlier later : List LogEntry)
        (l : LogEntry)
        → IsNew L s
        → Reach D G H KL s t
        → (t.replicas i).node ≡ db.node
        → t.log ≡ (t.replicas i).passed ++ awaited R G ro db
        → (deliver_log G B (awaited R G ro db) (t.replicas i)).lost ≡ false
        → ro.mode ≡ read_linearizable
        → (get_bytes G key ro db).0 ≡ ok b
        → t.log ≡ earlier ++ (l ∷ later)
        → set_command now key value opts ≡ ok cmd
        → G.decode l.content ≡ ok cmd
        → written_log (decoded G later) key ≡ none
        → b ≡ value
    get_bytes-set_command {t = t} i db key ro b value now opts cmd earlier later l new path same
          barrier fine mode got at built read untouched =
        let (leads, (d, (v, seen, returned))) =
          get_bytes-effect i db key ro b new path same barrier fine mode got in
        let (e, writes) = written-set_command now key value opts cmd built in
        let set : Stored = record { value = value; expires_at = e } in
        let holds : effect G t.log key ≡ some set =
          ap (λ ls. effect G ls key) at
          ∙ effect-last_write earlier later l cmd key read untouched set writes in
        sym returned
        ∙ value_of_visible (read_clock B L Q d) set v
            (ap (visible (read_clock B L Q d)) (sym holds) ∙ seen)
