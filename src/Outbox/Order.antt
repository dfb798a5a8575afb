-- ===== src/Outbox/Order.antt =====
-- The order in which the outbox is claimed.
use team5_ewaste_platform.Common.{[], ◌∷◌, Text, ◌≡◌, refl, false, arith}
use team5_ewaste_platform.Store.{OutboxEvent}
use team5_ewaste_platform.Outbox.{text_lt, precedes}

text_lt_total : (s t : Text) → text_lt s t ≡ false → text_lt t s ≡ false → s ≡ t
unfolding text_lt
text_lt_total [] [] h k = refl
text_lt_total [] (d ∷ t) h k = cc
text_lt_total (c ∷ s) [] h k = cc
text_lt_total (c ∷ s) (d ∷ t) h k = ground (arith, text_lt_total s t)

-- Two events of which neither precedes the other are the same event.
pub precedes_total :
    (e f : OutboxEvent) → precedes e f ≡ false → precedes f e ≡ false → e.event_id ≡ f.event_id
unfolding precedes
precedes_total e f h k = ground (arith, text_lt_total e.event_id f.event_id)
