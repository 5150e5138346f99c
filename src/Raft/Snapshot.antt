-- ===== src/Raft/Snapshot.antt =====
-- internal/raft/replication.go, InstallSnapshot on both sides. `HandleInstallSnapshot` holds the
-- lock twice and neither time while it persists and restores: it is three steps here.
use boiler_pulse.Prelude.{
  ℕ, ◌+◌, String, Bool, false, not, [], Option, none, some, ltb, leb, ◌==◌, ◌||◌, if◌then◌else◌,
  u64,
}
use boiler_pulse.Raft.Types.{InstallSnapshotArgs, InstallSnapshotReply}
use boiler_pulse.Raft.Interfaces.{Storage, StateMachine}
use boiler_pulse.Raft.Node.{Node, Env, is_leader, update, become_follower}
use boiler_pulse.Raft.Replication.{follow_leader, maybe_advance_commit_index}

-- A handler that has replied, or one that goes on; `term` is the term that it read.
pub data Progress : Type 0 where
  replied : InstallSnapshotReply → Progress
  proceed : ℕ → Progress

module _ {D M : Type 0} where
  -- The peer is known to hold everything up to `last`.
  unfoldable pub record_install : String → ℕ → Node D M → Node D M
  record_install peer last n = maybe_advance_commit_index (record n {
    next_index =
        if ltb (n.next_index peer) (u64 (last + 1))
        then update n.next_index peer (u64 (last + 1))
        else n.next_index;
    match_index =
        if ltb (n.match_index peer) last then update n.match_index peer last else n.match_index;
  })

module _ {D M : Type 0} (st : Storage D) where
  -- `none`: the load failed, or there is no snapshot.
  unfoldable pub prepare_install : ℕ → Node D M → Option InstallSnapshotArgs
  prepare_install term n = elim (st.load_snapshot n.disk) [
    | none ↦ none
    | some none ↦ none
    | some (some s) ↦ some (record {
      term = term;
      leader_id = n.id;
      last_included_index = s.last_included_index;
      last_included_term = s.last_included_term;
      contents = s.contents;
    })
  ]

  unfoldable pub handle_install_reply :
      String → InstallSnapshotArgs → InstallSnapshotReply → Node D M → Node D M
  handle_install_reply peer args reply n =
      if ltb n.current_term reply.term
      then become_follower st reply.term n
      else if not (is_leader n.state) || not (n.current_term == args.term)
      then n
      else record_install peer args.last_included_index n

  -- The first critical section: `becomeFollowerLocked` only for a newer term, and the rest as
  -- for AppendEntries.
  unfoldable pub begin_install : Env → InstallSnapshotArgs → Node D M → Node D M × Progress
  begin_install env args n =
      if ltb args.term n.current_term
      then (n, replied (record { term = n.current_term }))
      else let n1 = follow_leader st env args.term args.leader_id n in
        (
          n1,
          if leb args.last_included_index n1.log_base_index
              then replied (record { term = n1.current_term })
              else proceed n1.current_term,
        )

  -- The second critical section.
  unfoldable pub finish_install : InstallSnapshotArgs → Node D M → Node D M × InstallSnapshotReply
  finish_install args n =
      if leb args.last_included_index n.log_base_index
      then (n, record { term = n.current_term })
      else let base = args.last_included_index in
        (
          record n {
            log = [];
            disk = (st.discard_log_through base n.disk).0;
            log_base_index = base;
            log_base_term = args.last_included_term;
            commit_index = if ltb n.commit_index base then base else n.commit_index;
            last_applied = if ltb n.last_applied base then base else n.last_applied;
          },
          record { term = n.current_term },
        )

module _ {D M : Type 0} (st : Storage D) (sm : StateMachine M) where
  -- The part with no lock held. `false`: the handler has given up, and replies the term it read.
  unfoldable pub persist_install : InstallSnapshotArgs → Node D M → Node D M × Bool
  persist_install args n =
      let (saved, ok) =
        st.save_snapshot
          (record {
            last_included_index = args.last_included_index;
            last_included_term = args.last_included_term;
            contents = args.contents;
          })
          n.disk in
      let (restored, ok') = sm.restore args.contents n.machine in
      if ok
      then (record n { disk = saved; machine = restored }, ok')
      else (record n { disk = saved }, false)

  abbrev continue_install :
      InstallSnapshotArgs → Node D M × Progress → Node D M × InstallSnapshotReply
  continue_install args (n, replied r) = (n, r)
  continue_install args (n, proceed term) =
      let (n1, going) = persist_install args n in
      if going then finish_install st args n1 else (n1, record { term = term })

  -- The whole handler when nothing else runs in between.
  unfoldable pub handle_install_snapshot :
      Env → InstallSnapshotArgs → Node D M → Node D M × InstallSnapshotReply
  handle_install_snapshot env args n = continue_install args (begin_install st env args n)
