-- ===== src/Hdlc/Stream/Flag.antt =====
-- `std::find(buffer_.begin(), buffer_.end(), kHdlcFlag)`: the bytes from the first flag on.
use dlms.Prelude.{ℕ, suc, ◌<◌, ◌≡◌, refl, [], ◌∷◌, ◌++◌, arith, ◌==◌, if◌then◌else◌, length, Bytes}
use dlms.Hdlc.Codec.Encode.{hdlc_flag}

unfoldable pub from_flag : Bytes → Bytes
from_flag [] = []
from_flag (b ∷ bs) = if b == hdlc_flag then b ∷ bs else from_flag bs

pub from_flag-append_none : (a b : Bytes) → from_flag a ≡ [] → from_flag (a ++ b) ≡ from_flag b
unfolding from_flag
from_flag-append_none [] b h = refl
from_flag-append_none (x ∷ a) b h = ground (arith, from_flag-append_none a b)

pub from_flag-append_some :
    (a b r : Bytes) (x : ℕ) → from_flag a ≡ x ∷ r → from_flag (a ++ b) ≡ x ∷ (r ++ b)
unfolding from_flag
from_flag-append_some [] b r x h = cc
from_flag-append_some (y ∷ a) b r x h = ground (arith, from_flag-append_some a b r x)

-- What is found starts with the flag, so that it is found again.
pub from_flag-again :
    (a r : Bytes) (x : ℕ) → from_flag a ≡ x ∷ r → (x ≡ hdlc_flag) × (length r < length a)
unfolding from_flag
from_flag-again [] r x h = cc
from_flag-again (y ∷ a) r x h = ground (arith, from_flag-again a r x)

pub from_flag_self : (r : Bytes) → from_flag (hdlc_flag ∷ r) ≡ hdlc_flag ∷ r
unfolding from_flag
from_flag_self r = refl

-- Nothing is skipped just when the buffer starts with the flag.
pub from_flag-whole :
    (a r : Bytes) (x : ℕ) → from_flag a ≡ x ∷ r → suc (length r) ≡ length a → a ≡ x ∷ r
unfolding from_flag
from_flag-whole [] r x h n = cc
from_flag-whole (y ∷ a) r x h n = ground (arith, from_flag-again a r x)
