-- ===== src/Tcp/Channel/Bits.antt =====
-- The bits of `listen_events`.
use linux_cpp_file_server.Base.{ℕ, ◌+◌, ◌^◌, ◌≡◌, refl, Bool, true, false, if◌then◌else◌}
use linux_cpp_file_server.Tcp.Channel.{
  epollin, epollpri, epollout, to_short, from_short, set_bits, clear_bits,
}

abbrev pub events : Bool → Bool → ℕ
events r w = (if r then epollin + epollpri else 0) + (if w then epollout else 0)

pub set_read : (r w : Bool) → set_bits (epollin + epollpri) (events r w) ≡ events true w
unfolding set_bits from_short to_short
set_read false false = refl
set_read false true = refl
set_read true false = refl
set_read true true = refl

pub set_write : (r w : Bool) → set_bits epollout (events r w) ≡ events r true
unfolding set_bits from_short to_short
set_write false false = refl
set_write false true = refl
set_write true false = refl
set_write true true = refl

pub set_et : (r w : Bool) → set_bits (2 ^ 31) (events r w) ≡ events r w
unfolding set_bits from_short to_short
set_et false false = refl
set_et false true = refl
set_et true false = refl
set_et true true = refl

pub clear_read : (r w : Bool) → clear_bits (epollin + epollpri) (events r w) ≡ events false w
unfolding clear_bits from_short to_short
clear_read false false = refl
clear_read false true = refl
clear_read true false = refl
clear_read true true = refl

pub clear_write : (r w : Bool) → clear_bits epollout (events r w) ≡ events r false
unfolding clear_bits from_short to_short
clear_write false false = refl
clear_write false true = refl
clear_write true false = refl
clear_write true true = refl

pub events_value : (r w : Bool) → from_short (events r w) ≡ events r w
unfolding from_short
events_value false false = refl
events_value false true = refl
events_value true false = refl
events_value true true = refl
