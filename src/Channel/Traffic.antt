-- ===== src/Channel/Traffic.antt =====
-- Actions that leave the counter and the channel of ovs/driver.go alone.
use dovesnap.Prelude.{◌≡◌, refl, ◌∙◌}
use dovesnap.Manager.Keeps.{Relation, Calm, core_laws}

-- The counter and the channel are the same.
abbrev pub SameTraffic : Relation
SameTraffic s t = (t.pending ≡ s.pending) × (t.queue ≡ s.queue)

pub traffic_laws : Calm SameTraffic
traffic_laws =
    core_laws (λ a b. (b.pending ≡ a.pending) × (b.queue ≡ a.queue)) (λ a. (refl, refl))
      (λ a b c h k. (k.0 ∙ h.0, k.1 ∙ h.1))
