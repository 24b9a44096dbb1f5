-- ===== src/Turns/Change.antt =====
-- What a reconcile may do to the cluster label of an entry.
use cluster_api_provider_hyp.Base.{Bytes, ◌≡◌, Option, some, []}
use cluster_api_provider_hyp.Api.{
  Client, Key, HyperMachinePool, IsApart, IsApart-ap, stored_label, label_cluster_name,
}
use cluster_api_provider_hyp.Utils.{Remote}
use cluster_api_provider_hyp.Utils.Ssh.Silent.{IsSilent, IsSilent-ap}
use cluster_api_provider_hyp.Ownership.{cluster_label}

-- The label stays, a cluster writes its name into an empty label, or the label becomes empty.
pub data Change (a b : Option Bytes) : Type 0 where
  stays : b ≡ a → Change a b
  takes : (name : Bytes) → a ≡ some [] → b ≡ some name → Change a b
  clears : b ≡ some [] → Change a b

pub unchanged : (a b : Option Bytes) → b ≡ a → Change a b
unchanged a b e = stays e

module _ {World : Type 0} (stored : World → Key → Option HyperMachinePool) (k : Key) where
  -- The cluster label of the entry at `k`.
  abbrev pub label_at : World → Option Bytes
  label_at w = cluster_label stored w k

  abbrev label_in : (Key → Option HyperMachinePool) → Option Bytes
  label_in pools = stored_label (λ (p : HyperMachinePool). p.meta) (pools k) label_cluster_name

  -- What leaves the entries alone leaves the label alone.
  pub silent_at :
      {Conn Session : Type 0} (remote : Remote World Conn Session)
      → IsSilent remote stored
      → IsSilent remote label_at
  silent_at remote silent = IsSilent-ap remote stored label_in silent

  pub apart_at : (client : Client World) → IsApart client stored → IsApart client label_at
  apart_at client apart = IsApart-ap client stored label_in apart
