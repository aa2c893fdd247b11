-- ===== src/Runtime/Subscription/Closing.antt =====
-- What `nscde_runtime_subscription_close` of src/nscde_wayland_common/runtime-client.c leaves.
use orca_cde.Prelude.{List, [], ◌∷◌, false, ◌≡◌, refl, All}
use orca_cde.Runtime.Buffer.{null}
use orca_cde.Runtime.Cache.{TopicCache}
use orca_cde.Runtime.Subscription.{Subscription, subscription_close, clear_all}

-- Nothing of an earlier connection is in the buffer and the caches.
pub record IsCleared (sub : Subscription) : Type 0 where
  pub no_bytes : sub.buffer ≡ null
  pub no_topics :
      All (λ c. (c.active ≡ false) × (c.topic ≡ []) × (c.contents ≡ null)) sub.topic_caches

clear_all_lem :
    (cs : List TopicCache)
    → All (λ c. (c.active ≡ false) × (c.topic ≡ []) × (c.contents ≡ null)) (clear_all cs)
unfolding clear_all
clear_all_lem [] = tt
clear_all_lem (c ∷ cs) = ((refl, refl, refl), clear_all_lem cs)

pub subscription_close-IsCleared : (sub : Subscription) → IsCleared (subscription_close sub)
unfolding subscription_close
subscription_close-IsCleared sub = record {
  no_bytes = refl;
  no_topics = clear_all_lem sub.topic_caches;
}
