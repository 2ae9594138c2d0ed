-- ===== src/Fsm/Apply.antt =====
-- `(*fsm).Apply` against the meaning of commands: each entry takes effect as a whole or not at all.
use honeybadger.Base.{
  Bytes, ◌≡◌, refl, sym, ap, ◌∙◌, ◌⊎◌, inl, inr, none, some, Option-cases, List, [], ◌∷◌, ◌++◌,
  arith, if◌then◌else◌, or_else,
}
use honeybadger.Errors.{Error, ok, err, done, is_ok, bind-eq-ok, Result-cases}
use honeybadger.Command.{CommandPair, Command, LogEntry, Gob}
use honeybadger.Command.Effect.{
  contains, last_pair, written, after, after_log, after_log-append, after_log-cong,
}
use honeybadger.Badger.{Badger, Contents, TxnLaws}
use honeybadger.Node.{Node, with_store}
use honeybadger.Fsm.{new_entry, set_pairs, delete_keys, write_command, finish, apply, apply_log}

module _ (B : Badger) (L : TxnLaws B) where
  set_pairs-seen :
      (ps : List CommandPair) (t u : B.Txn) (k : Bytes)
      → set_pairs B ps t ≡ ok u
      → L.seen u k ≡ or_else (last_pair ps k) (L.seen t k)
  unfolding set_pairs last_pair new_entry
  set_pairs-seen [] t u k h = ground arith
  set_pairs-seen (p ∷ ps) t u k h =
      let (t', set, rest) = bind-eq-ok (B.set_entry t (new_entry p)) (set_pairs B ps) h in
      ground (arith, set_pairs-seen ps t' u k rest, L.seen-set_entry t t' (new_entry p) set k)

  delete_keys-seen :
      (keys : List Bytes) (t u : B.Txn) (k : Bytes)
      → delete_keys B keys t ≡ ok u
      → L.seen u k ≡ (if contains k keys then none else L.seen t k)
  unfolding delete_keys
  delete_keys-seen [] t u k h = ground arith
  delete_keys-seen (x ∷ xs) t u k h =
      let (t', deleted, rest) = bind-eq-ok (B.delete t x) (delete_keys B xs) h in
      ground (arith, delete_keys-seen xs t' u k rest, L.seen-delete t t' x deleted k)

  -- A callback that succeeds leaves what the command means.
  write_command-seen :
      (c : Command) (t u : B.Txn) (k : Bytes)
      → write_command B c t ≡ ok u
      → L.seen u k ≡ after c (L.seen t) k
  unfolding write_command after written
  write_command-seen c t u k h =
      let (t', set, rest) = bind-eq-ok (set_pairs B c.pairs t) (delete_keys B c.deletes) h in
      ground (arith, set_pairs-seen c.pairs t t' k set, delete_keys-seen c.deletes t' u k rest)

  -- One Update either has the whole effect of the command or none.
  pub update-write_command :
      (c : Command) (d : B.Db) (k : Bytes)
      → L.stored (B.update (write_command B c) d).1 k ≡ (
          if is_ok (B.update (write_command B c) d).0 then after c (L.stored d) k else L.stored d k)
  unfolding after
  update-write_command c d k =
      let f = write_command B c in
      elim (Result-cases (B.update f d).0) [
        | inr (e, failed) ↦ rw failed (L.stored-update_failed f d e failed k)
        | inl (_, succeeded) ↦ elim (Result-cases (f (L.begin d))) [
          | inr (e, failed) ↦ cc (L.update_abort f d e failed)
          | inl (t, ran) ↦ ground (
            arith,
            L.stored-update f d t ran succeeded k,
            write_command-seen c (L.begin d) t k ran,
            L.seen-begin d k,
          )
        ]
      ]

  -- What is stored in the node's live database; nothing where there is none.
  abbrev pub contents : Node B → Contents
  contents n k = elim n.store [ none ↦ none | some d ↦ L.stored d k ]

  module _ (G : Gob) where
    -- The command of an entry, if `Apply` returns nil for it on this node.
    abbrev pub applied : LogEntry → Node B → List Command
    applied l n =
        if is_ok (apply G B l n).0
        then elim (G.decode l.content) [ ok c ↦ c ∷ [] | err _ ↦ [] ]
        else []

    -- The commands of a log's entries for which `Apply` returns nil.
    unfoldable pub applied_log : List LogEntry → Node B → List Command
    applied_log [] n = []
    applied_log (l ∷ ls) n = applied l n ++ applied_log ls (apply G B l n).1

    -- The node's contents after `Apply`: the effect of the command if it returns nil, and the old
    -- contents if it returns an error.
    pub contents-apply :
        (l : LogEntry) (n : Node B) (k : Bytes)
        → contents (apply G B l n).1 k ≡ after_log (applied l n) (contents n) k
    unfolding apply with_store finish after_log after
    contents-apply l n k = elim (Result-cases (G.decode l.content)) [
      | inr (e, failed) ↦ ground arith
      | inl (c, decoded) ↦ elim (Option-cases n.store) [
        | inl gone ↦ ground arith
        | inr (d, live) ↦ ground (arith, update-write_command c d k)
      ]
    ]

    -- The same for a log.
    pub contents-apply_log :
        (ls : List LogEntry) (n : Node B) (k : Bytes)
        → contents (apply_log G B ls n) k ≡ after_log (applied_log ls n) (contents n) k
    unfolding apply_log applied_log after_log
    contents-apply_log [] n k = refl
    contents-apply_log (l ∷ ls) n k =
        let n' = (apply G B l n).1 in
        contents-apply_log ls n' k
        ∙ after_log-cong (applied_log ls n') (after_log (applied l n) (contents n)) (contents n') k
            (contents-apply l n k)
        ∙ ap (λ (m : Contents). m k)
            (sym (after_log-append (applied l n) (applied_log ls n') (contents n)))

    pub applied_index-apply :
        (l : LogEntry) (n : Node B)
        → (apply G B l n).1.applied_index
          ≡ (if is_ok (apply G B l n).0 then l.index else n.applied_index)
    unfolding apply with_store finish
    applied_index-apply l n = ground arith

    decodes_of_apply_ok :
        (l : LogEntry) (n : Node B)
        → (apply G B l n).0 ≡ done
        → (c : Command) × (G.decode l.content ≡ ok c)
    unfolding apply
    decodes_of_apply_ok l n h = elim (Result-cases (G.decode l.content)) [
      | inl decoded ↦ decoded
      | inr (e, failed) ↦ absurd (ground arith)
    ]

    -- An entry applies as a whole or not at all. Either Apply returns nil, the entry decodes, the
    -- node's contents are the old ones with the command's sets and deletes, and the applied index
    -- is the entry's; or it returns an error, and the contents and the applied index are the old.
    pub apply_atomic :
        (l : LogEntry) (n : Node B)
        → ((c : Command) × ((apply G B l n).0 ≡ done)
            × (G.decode l.content ≡ ok c)
            × ((k : Bytes) → contents (apply G B l n).1 k ≡ after c (contents n) k)
            × ((apply G B l n).1.applied_index ≡ l.index))
          ⊎ ((e : Error) × ((apply G B l n).0 ≡ err e)
              × ((k : Bytes) → contents (apply G B l n).1 k ≡ contents n k)
              × ((apply G B l n).1.applied_index ≡ n.applied_index))
    unfolding after_log
    apply_atomic l n = elim (Result-cases (apply G B l n).0) [
      | inl (_, succeeded) ↦
          let (c, decoded) = decodes_of_apply_ok l n succeeded in
          inl (
            c,
            succeeded,
            decoded,
            λ k. ground (arith, contents-apply l n k),
            ground (arith, applied_index-apply l n),
          )
      | inr (e, failed) ↦ inr (
        e,
        failed,
        λ k. ground (arith, contents-apply l n k),
        ground (arith, applied_index-apply l n),
      )
    ]
