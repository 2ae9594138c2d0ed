-- ===== src/Replicas/Invariant.antt =====
-- What a node holds, between the entries that it was handed and those that its store is ahead by.
use honeybadger.Base.{Bytes, ◌≡◌, refl, sym, ap, ◌∙◌, none, List, [], ◌∷◌, ◌++◌, append_cancel_left}
use mathlib.Core.List.{append-nil, append_assoc, head-eq_of_cons-eq, tail-eq_of_cons-eq}
use honeybadger.Badger.{Contents}
use honeybadger.Command.{LogEntry, Gob}
use honeybadger.Command.Effect.{after_log, after_log-append, after_log-again, after_log-cong}
use honeybadger.Replicas.{decoded_entry, decoded, effect}

module _ (G : Gob) where
  pub decoded-append :
      (ls more : List LogEntry) → decoded G (ls ++ more) ≡ decoded G ls ++ decoded G more
  decoded-append [] more = refl
  decoded-append (l ∷ ls) more =
      rw (decoded-append ls more) (sym (append_assoc (decoded_entry G l) _ _))

  pub effect-append :
      (ls more : List LogEntry) → effect G (ls ++ more) ≡ after_log (decoded G more) (effect G ls)
  effect-append ls more =
      ap (λ cs. after_log cs (λ _. none)) (decoded-append ls more)
      ∙ after_log-append (decoded G ls) (decoded G more) (λ _. none)

  -- Contents that are ahead of what was handed over by the entries `ahead`: once these are done to
  -- them again, they are the effect of the log up to there.
  pub record Tracks (log passed : List LogEntry) (m : Contents) : Type 0 where
    pub ahead : List LogEntry
    pub rest : List LogEntry
    pub split : log ≡ passed ++ (ahead ++ rest)
    pub catches_up : (k : Bytes) → after_log (decoded G ahead) m k ≡ effect G (passed ++ ahead) k

  pub Tracks-empty : (m : Contents) → ((k : Bytes) → m k ≡ none) → Tracks [] [] m
  unfolding after_log
  Tracks-empty m empty = record { ahead = []; rest = []; split = refl; catches_up = empty }

  -- The log grows at its end.
  pub Tracks-commit :
      (log passed : List LogEntry) (m : Contents) (l : LogEntry)
      → Tracks log passed m
      → Tracks (log ++ (l ∷ [])) passed m
  Tracks-commit log passed m l t = record {
    ahead = t.ahead;
    rest = t.rest ++ (l ∷ []);
    split =
        ap (λ ls. ls ++ (l ∷ [])) t.split
        ∙ append_assoc passed (t.ahead ++ t.rest) (l ∷ [])
        ∙ ap (λ ls. passed ++ ls) (append_assoc t.ahead t.rest (l ∷ []));
    catches_up = t.catches_up;
  }

  -- Contents that agree key by key are tracked alike.
  pub Tracks-cong :
      (log passed : List LogEntry) (m m' : Contents)
      → ((k : Bytes) → m' k ≡ m k)
      → Tracks log passed m
      → Tracks log passed m'
  Tracks-cong log passed m m' same t = record {
    ahead = t.ahead;
    rest = t.rest;
    split = t.split;
    catches_up = λ k. after_log-cong (decoded G t.ahead) m m' k (same k) ∙ t.catches_up k;
  }

  -- Entries may be handed over again from an earlier label on.
  pub Tracks-again :
      (log label later : List LogEntry) (m : Contents)
      → Tracks log (label ++ later) m
      → Tracks log label m
  Tracks-again log label later m t = record {
    ahead = later ++ t.ahead;
    rest = t.rest;
    split =
        t.split
        ∙ append_assoc label later (t.ahead ++ t.rest)
        ∙ ap (λ ls. label ++ ls) (sym (append_assoc later t.ahead t.rest));
    catches_up = λ k.
        let one : effect G (label ++ (later ++ t.ahead))
            ≡ after_log (decoded G label ++ (decoded G later ++ decoded G t.ahead)) (λ _. none) =
          ap (λ cs. after_log cs (λ _. none))
            (decoded-append label (later ++ t.ahead)
              ∙ ap (λ cs. decoded G label ++ cs) (decoded-append later t.ahead)) in
        let two = ap (effect G) (append_assoc label later t.ahead) in
        ap (λ cs. after_log cs m k) (decoded-append later t.ahead)
        ∙ after_log-again (decoded G label) (decoded G later) (decoded G t.ahead) m (λ _. none) k
            (t.catches_up k ∙ ap (λ (c : Contents). c k) (two ∙ one))
        ∙ ap (λ (c : Contents). c k) (sym one);
  }

  module _ (log passed : List LogEntry) (m m' : Contents) (l : LogEntry) (later : List LogEntry)
      (at : log ≡ passed ++ (l ∷ later))
      (done_once : (k : Bytes) → m' k ≡ after_log (decoded_entry G l) m k) where
    Tracks-split :
        (ahead rest : List LogEntry)
        → ahead ++ rest ≡ l ∷ later
        → ((k : Bytes) → after_log (decoded G ahead) m k ≡ effect G (passed ++ ahead) k)
        → Tracks log (passed ++ (l ∷ [])) m'
    unfolding after_log
    Tracks-split [] rest same catches = record {
      ahead = [];
      rest = later;
      split = at ∙ sym (append_assoc passed (l ∷ []) later);
      catches_up = λ k.
          let level : m k ≡ effect G passed k =
            catches k ∙ ap (λ ls. effect G ls k) (append-nil passed) in
          done_once k
          ∙ after_log-cong (decoded_entry G l) (effect G passed) m k level
          ∙ ap (λ cs. after_log cs (effect G passed) k) (sym (append-nil (decoded_entry G l)))
          ∙ ap (λ (c : Contents). c k) (sym (effect-append passed (l ∷ [])))
          ∙ ap (λ ls. effect G ls k) (sym (append-nil (passed ++ (l ∷ []))));
    }
    Tracks-split (x ∷ ahead) rest same catches =
        let first : x ≡ l = head-eq_of_cons-eq same in
        record {
          ahead = ahead;
          rest = rest;
          split =
              at
              ∙ ap (λ ls. passed ++ ls) (ap (λ ls. l ∷ ls) (sym (tail-eq_of_cons-eq same)))
              ∙ sym (append_assoc passed (l ∷ []) (ahead ++ rest));
          catches_up = λ k.
              after_log-cong (decoded G ahead) (after_log (decoded_entry G l) m) m' k (done_once k)
              ∙ ap (λ (c : Contents). c k)
                  (sym (after_log-append (decoded_entry G l) (decoded G ahead) m))
              ∙ ap (λ y. after_log (decoded_entry G y ++ decoded G ahead) m k) (sym first)
              ∙ catches k
              ∙ ap (λ y. effect G (passed ++ (y ∷ ahead)) k) first
              ∙ ap (λ ls. effect G ls k) (sym (append_assoc passed (l ∷ []) ahead));
        }

    -- The next entry is handed over, and done.
    pub Tracks-deliver : Tracks log passed m → Tracks log (passed ++ (l ∷ [])) m'
    Tracks-deliver t =
        Tracks-split t.ahead t.rest
          (append_cancel_left passed (t.ahead ++ t.rest) (l ∷ later) (sym t.split ∙ at))
          t.catches_up
