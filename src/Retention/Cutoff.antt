-- ===== src/Retention/Cutoff.antt =====
-- What the retention cutoff compares: a stored CURRENT_TIMESTAMP with an ISO text.
use homesentinel.Prelude.{◌≡◌, text_eq, text_ltb, text_length, text_ltb-append, ◌||◌, ◌∷◌, arith}
use homesentinel.Db.Schema.{Moment, isoformat, current_timestamp}

-- A stored timestamp is before a cutoff with a date of the same length exactly when its date is
-- not after the cutoff's date: the blank of the one sorts before the T of the other.
pub current_timestamp-before-isoformat :
    (t cutoff : Moment)
    → text_length t.date ≡ text_length cutoff.date
    → text_ltb (current_timestamp t) (isoformat cutoff)
      ≡ (text_ltb t.date cutoff.date || text_eq t.date cutoff.date)
unfolding text_ltb
current_timestamp-before-isoformat t cutoff h =
    ground (arith, text_ltb-append t.date cutoff.date (b' ' ∷ t.clock) (b'T' ∷ cutoff.clock) h)
