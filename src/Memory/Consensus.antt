-- ===== src/Memory/Consensus.antt =====
-- Raft in memory: one server, which is a follower or the leader. A leader commits each submitted
-- command as the next entry; a follower refuses it.
use honeybadger.Base.{
  ℕ, suc, Bytes, codes, ◌≡◌, false, if◌then◌else◌, arith, Bool, List, [], ◌∷◌, bytes_eq,
  format_uint, some, none,
}
use honeybadger.Errors.{ok, err, done, foreign, other, raft_not_leader}
use honeybadger.Command.{LogEntry}
use honeybadger.Open.Laws.{Parts}
use honeybadger.Raft.{
  Raft, RaftLaws, Server, voter, raft_leader, raft_follower, Outcome, refused, committed,
}

pub record Cluster : Type 0 where
  pub leads : Bool
  pub last_index : ℕ
  pub servers : List Server
  -- entries of the leader that have not reached this node yet
  pub backlog : List LogEntry
  pub parts : Parts

unfoldable pub submit_content : Bytes → Cluster → Outcome × Cluster
submit_content content c =
    if c.leads
    then (
      committed c.backlog (record { index = suc c.last_index; content = content }),
      record c { last_index = suc c.last_index; backlog = [] },
    )
    else (refused c.backlog (foreign raft_not_leader), record c { backlog = [] })

abbrev pub consensus : Raft
consensus = record {
  State = Cluster;
  state = λ c. (if c.leads then raft_leader else raft_follower, c);
  leader_with_id = λ c. (codes "10.0.0.1:1", codes "n1", c);
  local_addr = λ c. codes "10.0.0.1:1";
  apply = λ content timeout c. submit_content content c;
  barrier = λ timeout c.
      if c.leads
      then (done, c.backlog, record c { backlog = [] })
      else (err (foreign raft_not_leader), [], c);
  add_voter = λ id addr timeout c. (
    done,
    record c { servers = record { suffrage = voter; id = id; address = addr } ∷ c.servers },
  );
  remove_server = λ id timeout c. (done, c);
  get_configuration = λ c. (ok c.servers, c);
  snapshot = λ c. (done, c);
  stats = λ c. (
    λ key. if bytes_eq key (codes "last_log_index") then some (format_uint c.last_index) else none,
    c,
  );
  shutdown = λ c. (
    done,
    let parts = c.parts in record c { leads = false; parts = record parts { running = false } },
  );
  close_transport =
      λ c. (done, let parts = c.parts in record c { parts = record parts { transport = false } });
  close_log_store = λ c. (
    err (foreign (other 9)),
    let parts = c.parts in record c { parts = record parts { log_store = false } },
  );
}

pub content-submit_content :
    (content : Bytes) (c : Cluster) (ls : List LogEntry) (l : LogEntry)
    → (submit_content content c).0 ≡ committed ls l
    → l.content ≡ content
unfolding submit_content
content-submit_content content c ls l h = ground arith

abbrev pub consensus_laws : RaftLaws consensus
consensus_laws = record {
  content-apply = λ content timeout c ls l h. content-submit_content content c ls l h;
}
