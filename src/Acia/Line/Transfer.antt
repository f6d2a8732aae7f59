-- ===== src/Acia/Line/Transfer.antt =====
-- A character over the line, from one ACIA of src/acia_6850.cpp to another.
use beem.Base.{
  ℕ, suc, ◌^◌, ◌<◌, ◌≡◌, refl, ap, sym, subst, ◌∙◌, true, false, arith, length, low, low_whole,
  tst_bit-set_bit, tst_bit-clr_bit,
}
use beem.Core.Bus.{Bus, get_data, set_data}
use beem.Acia.State
use beem.Acia.State.{Acia, sr_rdrf, sr_fe, sr_pe, sr_ovrn, sr_tst, sr_set, clear_interrupt}
use beem.Acia.Transmit.{tx_pin}
use beem.Acia.Receive.{rx_receive_stop_bit, rx_clock, set_rx_data}
use beem.Acia.Registers.{read_rdr, take_rdr, unlatch_carrier, report_overrun}
use beem.Acia.Line.{frame, sent, take_in}
use beem.Acia.Line.Send.{Sends}
use beem.Acia.Line.Frame.{frame_of, sent-frame}
use beem.Acia.Line.Take.{Listens}
use beem.Acia.Line.Accept.{received, take_idle, take_frame, Delivered, received-Delivered}

-- The transmitter `a` has a character of `w` bits to send on a line that is high, and the receiver `b`
-- waits for one with the same settings.
pub record Linked (a b : Acia) (v : ℕ) : Type 0 where
  pub sends : Sends a
  pub listens : Listens b
  pub ready : a.state ≡ State.idle
  pub waiting : a.tdr_is_full ≡ true
  pub high : tx_pin a ≡ true
  pub character : a.tdr < 2 ^ suc v
  pub word : a.word_length ≡ suc v
  pub byte : v < 8
  pub idle : b.rx_state ≡ State.rx_idle
  pub mark : b.rx_data ≡ true
  pub same_word : b.word_length ≡ a.word_length
  pub same_parity : b.parity ≡ a.parity

-- The receiver after the clock that takes the character from the transmit register and those of the
-- frame.
abbrev pub arrived : Acia → Acia → Acia
arrived a b = take_in (sent (suc (length (frame_of a))) a) b

arrived-eq-received :
    (a b : Acia) (v : ℕ) → Linked a b v → arrived a b ≡ received b a.tdr b.word_length
unfolding take_in
arrived-eq-received a b v k =
    ap (λ l. take_in l b) (sent-frame a v k.sends k.ready k.waiting k.word k.byte)
    ∙ (λ i. take_in (frame_of a) (rx_clock (set_rx_data b (k.high i))))
    ∙ ap (take_in (frame_of a)) (take_idle b k.listens k.idle k.mark)
    ∙ (λ i. take_in (frame (sym k.same_word i) (sym k.same_parity i) a.stop_bits a.tdr) b)
    ∙ take_frame b v a.stop_bits a.tdr k.listens k.idle (k.same_word ∙ k.word) k.byte

-- With clocks undivided and the same settings at both ends, whatever they are, a character is in the
-- receive register after one clock to load it and one for each bit of its frame: the register was
-- empty and is full, RDRF is set, and the error flags are as they were.
pub transfer :
    (a b : Acia) (v : ℕ) → Linked a b v → b.rdr_is_full ≡ false → Delivered b a.tdr (arrived a b)
transfer a b v k h = subst (Delivered b a.tdr) (sym (arrived-eq-received a b v k)) (
    subst (λ d. Delivered b d (received b a.tdr b.word_length)) whole
      (received-Delivered b a.tdr b.word_length h))
  where
    whole : low b.word_length a.tdr ≡ a.tdr
    whole = ap (λ w. low w a.tdr) (k.same_word ∙ k.word) ∙ low_whole (suc v) a.tdr k.character

-- A read of the data register gives `d`, sets OVRN and leaves no character to read: RDRF is clear, and
-- the next read gives `d` again and clears OVRN.
abbrev pub ReadsOverrun : Acia → Bus → ℕ → Type 0
ReadsOverrun c bus d =
    let (e, bus') = read_rdr c bus in
    let (e', again) = read_rdr e bus in
    (get_data bus' ≡ get_data (set_data bus d))
    × (sr_tst e sr_ovrn ≡ true)
    × (e.rdr_is_full ≡ false)
    × (sr_tst e sr_rdrf ≡ false)
    × (get_data again ≡ get_data (set_data bus d))
    × (sr_tst e' sr_ovrn ≡ false)

-- The read that meets the overrun, and a read of an empty register after it.
module _ (c : Acia) (bus : Bus) where
  read_rdr-reports :
      c.rdr_is_full ≡ true
      → c.overrun_error_pending ≡ true
      → let e = (read_rdr c bus).0 in
        (sr_tst e sr_ovrn ≡ true)
        × (e.rdr_is_full ≡ false)
        × (sr_tst e sr_rdrf ≡ false)
        × (e.rdr ≡ c.rdr)
        × (e.overrun_error ≡ true)
        × (e.overrun_error_pending ≡ false)
  unfolding read_rdr report_overrun take_rdr unlatch_carrier clear_interrupt
  read_rdr-reports full lost = (
    grind (arith, tst_bit-set_bit),
    grind arith,
    grind (arith, tst_bit-set_bit, tst_bit-clr_bit),
    grind arith,
    grind arith,
    grind arith,
  )

  read_rdr-forgets :
      c.rdr_is_full ≡ false
      → c.overrun_error ≡ true
      → c.overrun_error_pending ≡ false
      → sr_tst (read_rdr c bus).0 sr_ovrn ≡ false
  unfolding read_rdr report_overrun take_rdr unlatch_carrier clear_interrupt
  read_rdr-forgets empty was reported = grind (arith, tst_bit-clr_bit)

read_rdr-ReadsOverrun :
    (c : Acia) (bus : Bus)
    → c.rdr_is_full ≡ true
    → c.overrun_error_pending ≡ true
    → ReadsOverrun c bus c.rdr
unfolding read_rdr
read_rdr-ReadsOverrun c bus full lost =
    let e = (read_rdr c bus).0 in
    let (ovrn, empty, rdrf, same, was, reported) = read_rdr-reports c bus full lost in
    (
      refl,
      ovrn,
      empty,
      rdrf,
      ap (λ (d : ℕ). get_data (set_data bus d)) same,
      read_rdr-forgets e bus empty was reported,
    )

received-overrun :
    (b : Acia) (d w : ℕ)
    → b.rdr_is_full ≡ true
    → let c = received b d w in
      (c.rdr_is_full ≡ true) × (c.overrun_error_pending ≡ true) × (c.rdr ≡ b.rdr)
unfolding rx_receive_stop_bit
received-overrun b d w h = (grind arith, grind arith, grind arith)

received-ReadsOverrun :
    (b : Acia) (d w : ℕ) (bus : Bus)
    → b.rdr_is_full ≡ true
    → ReadsOverrun (received b d w) bus b.rdr
received-ReadsOverrun b d w bus h =
    let (full, lost, same) = received-overrun b d w h in
    subst (λ v. ReadsOverrun (received b d w) bus v) same
      (read_rdr-ReadsOverrun (received b d w) bus full lost)

pub overrun :
    (a b : Acia) (v : ℕ) (bus : Bus)
    → Linked a b v
    → b.rdr_is_full ≡ true
    → ReadsOverrun (arrived a b) bus b.rdr
overrun a b v bus k h =
    subst (λ c. ReadsOverrun c bus b.rdr) (sym (arrived-eq-received a b v k))
      (received-ReadsOverrun b a.tdr b.word_length bus h)
