-- ===== src/Crtc/Words.antt =====
-- src/6845_crtc.cpp: what the processor writes to the registers of addresses it reads back.
use beem.Base.{ℕ, ◌+◌, ◌-◌, ◌%◌, ◌^◌, ◌<◌, ◌≡◌, Bool, true, false, if◌then◌else◌, arith, ap, ◌∙◌}
use beem.Core.Bus.{Bus, set_data}
use beem.Crtc.State.{Crtc}
use beem.Crtc.Registers.{
  with_low, with_high, register_at, read_register, write_register, mmio_read, mmio_write, tick,
}

-- An access to one of the two addresses of the CRTC.
abbrev pub access : Bool → ℕ → ℕ → Bus
access reading address d = record {
  data_pins = d;
  address = address;
  sync = false;
  rst = true;
  rw = reading;
}

abbrev pub poke : Crtc → ℕ → ℕ → Crtc
poke c n d =
    let selected = (tick c (access false c.base_addr n)).0 in
    (tick selected (access false (selected.base_addr + 1) d)).0

abbrev pub peek : Crtc → ℕ → ℕ
peek c n =
    let selected = (tick c (access false c.base_addr n)).0 in
    (tick selected (access true (selected.base_addr + 1) 0)).1.data_pins

abbrev selecting : Crtc → ℕ → Crtc
selecting c n = record c { selected_register = n % 32 }

-- An access to address `n` of the two.
tick_at :
    (c : Crtc) (b : Bus) (n : ℕ)
    → b.address ≡ c.base_addr + n
    → n < 2
    → tick c b ≡ (if b.rw then (c, mmio_read c b n) else (mmio_write c b n, b))
unfolding tick
tick_at c b n here small = ground (arith, offset)
  where
    offset : b.address - c.base_addr ≡ n
    offset = omega arith

selects : (c : Crtc) (n : ℕ) → (tick c (access false c.base_addr n)).0 ≡ selecting c n
unfolding mmio_write
selects c n = ap (λ p. p.0) (tick_at c (access false c.base_addr n) 0 (omega arith) (omega arith))

poke_lem :
    (c : Crtc) (n d : ℕ) → poke c n d ≡ write_register (register_at (n % 32)) (selecting c n) d
unfolding mmio_write
poke_lem c n d =
    ap (λ x. (tick x (access false (x.base_addr + 1) d)).0) (selects c n)
    ∙ ap (λ p. p.0)
        (tick_at (selecting c n) (access false (c.base_addr + 1) d) 1 (omega arith) (omega arith))

peek_lem :
    (c : Crtc) (n : ℕ) → peek c n ≡ read_register (register_at (n % 32)) (selecting c n) 0 % 2 ^ 8
unfolding mmio_read set_data
peek_lem c n =
    ap (λ x. (tick x (access true (x.base_addr + 1) 0)).1.data_pins) (selects c n)
    ∙ ap (λ p. p.1.data_pins)
        (tick_at (selecting c n) (access true (c.base_addr + 1) 0) 1 (omega arith) (omega arith))

-- The four registers of the screen's start and the cursor, written one after another, are read back:
-- the two high parts with six bits, the low parts whole.
pub peek-poke :
    (c : Crtc) (a b d e : ℕ)
    → b < 2 ^ 8
    → e < 2 ^ 8
    → let written = poke (poke (poke (poke c 12 a) 13 b) 14 d) 15 e in
      (peek written 12 ≡ a % 64)
      × (peek written 13 ≡ b)
      × (peek written 14 ≡ d % 64)
      × (peek written 15 ≡ e)
unfolding register_at read_register write_register
peek-poke c a b d e low high = (
  omega (arith, reads 12),
  omega (arith, reads 13),
  omega (arith, reads 14),
  omega (arith, reads 15),
)
  where
    last : Crtc
    last = record c {
      selected_register = 15;
      reg_scr_start_addr = with_low (with_high c.reg_scr_start_addr a) b;
      reg_curs_start_addr = with_low (with_high c.reg_curs_start_addr d) e;
    }

    all_written : poke (poke (poke (poke c 12 a) 13 b) 14 d) 15 e ≡ last
    all_written =
        ap (λ x. poke (poke (poke x 13 b) 14 d) 15 e) (poke_lem c 12 a)
        ∙ ap (λ x. poke (poke x 14 d) 15 e) (poke_lem _ 13 b)
        ∙ ap (λ x. poke x 15 e) (poke_lem _ 14 d)
        ∙ poke_lem _ 15 e

    reads :
        (n : ℕ)
        → peek (poke (poke (poke (poke c 12 a) 13 b) 14 d) 15 e) n
          ≡ read_register (register_at (n % 32)) (selecting last n) 0 % 2 ^ 8
    reads n = ap (λ x. peek x n) all_written ∙ peek_lem last n
