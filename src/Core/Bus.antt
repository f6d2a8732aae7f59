-- ===== src/Core/Bus.antt =====
-- libs/core/include/bus.h: the pins of the bus, one field for each group of bits of `pins_`.
-- A field holds what its getter returns: the setters truncate as the masks of the source do. The
-- bits of `pins_` that no getter reads are left out.
use beem.Base.{ℕ, ◌%◌, ◌^◌, Bool, true, false}

pub record Bus : Type 0 where
  pub data_pins : ℕ
  pub address : ℕ
  pub sync : Bool
  pub rst : Bool
  pub rw : Bool

abbrev pub get_address : Bus → ℕ
get_address b = b.address

unfoldable pub set_address : Bus → ℕ → Bus
set_address b a = record b { address = a % 2 ^ 16 }

abbrev pub get_data : Bus → ℕ
get_data b = b.data_pins

unfoldable pub set_data : Bus → ℕ → Bus
set_data b d = record b { data_pins = d % 2 ^ 8 }

abbrev pub tst_rst : Bus → Bool
tst_rst b = b.rst

abbrev pub tst_rw : Bus → Bool
tst_rw b = b.rw

unfoldable pub set_rw : Bus → Bus
set_rw b = record b { rw = true }

unfoldable pub clr_rw : Bus → Bus
clr_rw b = record b { rw = false }

abbrev pub tst_sync : Bus → Bool
tst_sync b = b.sync

unfoldable pub set_sync : Bus → Bus
set_sync b = record b { sync = true }

unfoldable pub clr_sync : Bus → Bus
clr_sync b = record b { sync = false }

unfoldable pub set_rst : Bus → Bus
set_rst b = record b { rst = true }

unfoldable pub clr_rst : Bus → Bus
clr_rst b = record b { rst = false }
