-- ===== src/Turns/Validates.antt =====
-- What the validation of an entry does to its own cluster label and to those that are stored.
use cluster_api_provider_hyp.Base.{
  Bytes, codes, ◌==◌, ◌++◌, ◌≡◌, refl, ◌∙◌, ◌⊎◌, inl, inr, arith, [], ◌∷◌, Option, some, M, must,
  on_world, with_object, ◌>>=◌, ◌>>◌, Scoped, Option-cases, get_elem?,
}
use cluster_api_provider_hyp.Base.Split.{split}
use cluster_api_provider_hyp.Base.Tracked.{Keeps}
use cluster_api_provider_hyp.Base.Preserved.{
  Preserves, >>=-Preserves, pure-Preserves, must-Preserves, if-Preserves, option-Preserves,
}
use cluster_api_provider_hyp.Api.{
  Client, Result, value, fault, message, Key, HyperMachinePool, label?, lookup, insert,
  lookup-insert, label_cluster_name, label_hyper_machine_pool_valid, text_or_empty,
}
use cluster_api_provider_hyp.Utils.{Remote}
use cluster_api_provider_hyp.Utils.Ssh.{ssh_connect, send_commands, close}
use cluster_api_provider_hyp.Utils.Ssh.Silent.{
  IsSilent, ssh_connect-Keeps, send_commands-Keeps, close-Keeps,
}
use cluster_api_provider_hyp.PoolController.Validation.{
  init_hyper_machine_pool, set_valid, set_error, valid_ssh, ask, ask_interface, set_kernel, set_os,
  set_host_name, set_network_interface, drop_last_two, os_of, centos_interface_of,
}
use cluster_api_provider_hyp.PoolController.Handler.{parse_bool, init_unlabelled, validate}
use cluster_api_provider_hyp.Turns.Change.{label_at, silent_at}

-- The cluster label of an object.
abbrev pub own : HyperMachinePool → Option Bytes
own p = label? label_cluster_name p.meta.labels

-- The object has the label that it had, or an empty one.
abbrev pub IsKept : HyperMachinePool → HyperMachinePool → Type 0
IsKept hmp p = (own p ≡ own hmp) ⊎ (own p ≡ some [])

init_unlabelled-IsKept : (hmp : HyperMachinePool) → IsKept hmp (init_unlabelled hmp)
unfolding init_unlabelled init_hyper_machine_pool
init_unlabelled-IsKept hmp = elim (Option-cases hmp.meta.labels) [
  | inl nil ↦ inr (rw nil (unfold lookup in refl))
  | inr (m, labels) ↦ elim (Option-cases (lookup label_hyper_machine_pool_valid m)) [
    | inl e ↦ inr (
        ground (
          arith,
          labels,
          lookup-insert label_cluster_name label_cluster_name []
              (insert label_hyper_machine_pool_valid (codes "false") m),
        ))
    | inr (v, e) ↦ inl (ground (arith, labels))
  ]
]

set_valid-own : (v : Bytes) (hmp p : HyperMachinePool) → set_valid v hmp ≡ some p → own p ≡ own hmp
unfolding set_valid
set_valid-own v hmp p e = elim (Option-cases hmp.meta.labels) [
  | inl nil ↦ absurd (ground arith)
  | inr (m, labels) ↦
      ground (arith, lookup-insert label_cluster_name label_hyper_machine_pool_valid v m)
]

module _ {World Conn Session : Type 0} (remote : Remote World Conn Session) (client : Client World)
    (stored : World → Key → Option HyperMachinePool) (silent : IsSilent remote stored)
    (k : Key) where
  abbrev pub label : World → Option Bytes
  label = label_at stored k

  -- From a world and an object that the handler read.
  module _ (w : World) (hmp : HyperMachinePool) where
    abbrev pub InState : Scoped World HyperMachinePool → Type 0
    InState t = (label t.world ≡ label w) × IsKept hmp t.object

    on_world-InState : {A : Type 0} (m : M World A) → Keeps label m → Preserves InState (on_world m)
    on_world-InState m h = record {
      keeps = λ t (same, own_kept). (h.same t.world ∙ same, own_kept);
    }

    -- An object with the same cluster label as the one in the state.
    with_object-InState :
        (f : HyperMachinePool → HyperMachinePool)
        → ((p : HyperMachinePool) → own (f p) ≡ own p)
        → Preserves InState (with_object f)
    with_object-InState f h = record {
      keeps = λ t (same, own_kept).
          (same, elim own_kept [ inl e ↦ inl (h t.object ∙ e) | inr e ↦ inr (h t.object ∙ e) ]);
    }

    ask-InState :
        (conn : Conn) (cmd : Bytes) (parse : Bytes → Option Bytes)
        (store : Bytes → HyperMachinePool → HyperMachinePool)
        → ((v : Bytes) (p : HyperMachinePool) → own (store v p) ≡ own p)
        → Preserves InState (ask remote conn cmd parse store)
    unfolding ask
    ask-InState conn cmd parse store h =
        >>=-Preserves InState (on_world (send_commands remote conn (cmd ∷ []))) _
          (on_world-InState (send_commands remote conn (cmd ∷ []))
            (send_commands-Keeps remote label (silent_at stored k remote silent) conn (cmd ∷ [])))
          (λ r.
            option-Preserves InState r.1 _ _
              (>>=-Preserves InState (must (parse r.0)) _ (must-Preserves InState (parse r.0))
                (λ answer. with_object-InState (store answer) (h answer)))
              (λ e. pure-Preserves InState tt))

    ask_interface-InState : (conn : Conn) → Preserves InState (ask_interface remote conn)
    unfolding ask_interface
    ask_interface-InState conn = record {
      keeps = λ s h.
          (>>=-Preserves InState (must s.object.spec.ssh) _
              (must-Preserves InState s.object.spec.ssh)
              (λ info.
                >>=-Preserves InState (must (get_elem? (split info.address (codes ":")) 0)) _
                  (must-Preserves InState (get_elem? (split info.address (codes ":")) 0))
                  (λ host.
                    if-Preserves InState (s.object.status.os == codes "ubuntu") _ _
                      (ask-InState conn (codes "ifconfig | grep " ++ (host ++ codes " -B 1"))
                        (λ out. get_elem? (split out (codes ":")) 0) set_network_interface
                        (λ v p. refl))
                      (if-Preserves InState (s.object.status.os == codes "centos") _ _
                        (ask-InState conn (codes "ip addr | grep " ++ (host ++ codes " -B 3"))
                          centos_interface_of set_network_interface (λ v p. refl))
                        (pure-Preserves InState tt))))).keeps
            s h;
    }

    -- The label that says whether the entry is valid is written.
    set-InState :
        (p : HyperMachinePool) (v : Bytes)
        → IsKept hmp p
        → (f : HyperMachinePool → M (Scoped World HyperMachinePool) (Unit {0}))
        → ((q : HyperMachinePool) → IsKept hmp q → Preserves InState (f q))
        → Preserves InState (must (set_valid v p) >>= f)
    set-InState p v kept f h = elim (Option-cases (set_valid v p)) [
      | inl e ↦ rw e (record { keeps = λ t k. k })
      | inr (q, e) ↦
          let same = set_valid-own v p q e in
          rw e (record {
            keeps = (h q (elim kept [ inl a ↦ inl (same ∙ a) | inr a ↦ inr (same ∙ a) ])).keeps;
          })
    ]

    -- What follows the connection.
    opened-InState :
        (p : HyperMachinePool) (opened : Result Conn)
        → IsKept hmp p
        → Preserves InState (elim opened as (λ _. M (Scoped World HyperMachinePool) (Unit {0})) [
          | fault e ↦ must (set_valid (codes "false") p) >>= λ invalid.
              with_object (λ _. set_error (message e) invalid)
          | value conn ↦ must (set_valid (codes "true") p) >>= λ valid.
              with_object (λ _. valid)
              >> (ask remote conn (codes "uname -r") drop_last_two set_kernel
                  >> (ask remote conn (codes "cat /etc/*release | grep -w ID") os_of set_os
                      >> (ask remote conn (codes "hostname") drop_last_two set_host_name
                          >> (ask_interface remote conn >> on_world (close remote conn)))))
        ])
    opened-InState p (fault e) kept =
        set-InState p (codes "false") kept _
          (λ q own_kept. record { keeps = λ t (same, _). (same, own_kept) })
    opened-InState p (value conn) kept = set-InState p (codes "true") kept _ (λ q own_kept.
        >>=-Preserves InState (with_object (λ _. q)) _
          (record { keeps = λ t (same, _). (same, own_kept) })
          (λ _.
            >>=-Preserves InState (ask remote conn (codes "uname -r") drop_last_two set_kernel) _
              (ask-InState conn _ drop_last_two set_kernel (λ v x. refl))
              (λ _.
                >>=-Preserves InState
                  (ask remote conn (codes "cat /etc/*release | grep -w ID") os_of set_os) _
                  (ask-InState conn _ os_of set_os (λ v x. refl))
                  (λ _.
                    >>=-Preserves InState
                      (ask remote conn (codes "hostname") drop_last_two set_host_name) _
                      (ask-InState conn _ drop_last_two set_host_name (λ v x. refl))
                      (λ _.
                        >>=-Preserves InState (ask_interface remote conn) _
                          (ask_interface-InState conn)
                          (λ _.
                            on_world-InState (close remote conn) (
                              close-Keeps remote label (silent_at stored k remote silent)
                                conn)))))))

    valid_ssh-InState : Preserves InState (valid_ssh remote)
    unfolding valid_ssh
    valid_ssh-InState = record {
      keeps = λ s h.
          (>>=-Preserves InState (must s.object.spec.ssh) _
              (must-Preserves InState s.object.spec.ssh)
              (λ info.
                >>=-Preserves InState
                  (on_world (ssh_connect remote info.address info.ssh_id info.ssh_pw)) _
                  (on_world-InState (ssh_connect remote info.address info.ssh_id info.ssh_pw) (
                    ssh_connect-Keeps remote label (silent_at stored k remote silent) info.address
                      info.ssh_id info.ssh_pw))
                  (λ opened. opened-InState s.object opened h.1))).keeps
            s h;
    }

    init-InState : Preserves InState (with_object init_unlabelled)
    init-InState = record {
      keeps = λ t (same, own_kept). (
        same,
        elim (init_unlabelled-IsKept t.object) [
          | inl e ↦ elim own_kept [ inl h ↦ inl (e ∙ h) | inr h ↦ inr (e ∙ h) ]
          | inr e ↦ inr e
        ],
      );
    }

    pub validate-InState : Preserves InState (validate remote client)
    unfolding validate
    validate-InState = record {
      keeps = λ s h.
          (if-Preserves InState
              (parse_bool (
                text_or_empty
                  (label? label_hyper_machine_pool_valid (init_unlabelled s.object).meta.labels)))
              _ _ (pure-Preserves InState tt) valid_ssh-InState).keeps
            (record s { object = init_unlabelled s.object }) (init-InState.keeps s h);
    }
