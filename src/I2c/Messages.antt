-- ===== src/I2c/Messages.antt =====
-- The bytes that go over the bus, and the name of the device.
use ohmylib.Prelude.{
  ℕ, suc, ◌%◌, ◌^◌, ◌<◌, ◌≡◌, ◌≢◌, refl, sym, ap, ◌∙◌, arith, not, ◌&&◌, Bool-cases, ==_false, inl,
  inr, List, [], ◌∷◌, ◌++◌, append-nil, ltb, ◌==◌, length, take_all, drop, Memory, read_bytes,
  if◌then◌else◌,
}
use ohmylib.Prelude.Decimal.{decimal, atoi, atoi_loop, atoi-decimal, length-digits}
use ohmylib.Prelude.Int.{ℤ, pos}
use ohmylib.I2c.{
  I2cMsg, Ioctl, message, i2c_m_rd, i2c_xfer, i2c_write, i2c_write_reg8, i2c_write_reg16, dev_i2c,
  device_name,
}

-- The bytes that messages write, from the memory of the program.
abbrev pub written : Memory → List I2cMsg → List ℕ
written mem [] = []
written mem (m ∷ ms) =
    if m.flags == 0 then read_bytes mem m.buf m.len ++ written mem ms else written mem ms

-- Where messages put what they read, and how much.
abbrev pub asked : List I2cMsg → List (ℕ × ℕ)
asked [] = []
asked (m ∷ ms) = if m.flags == 0 then asked ms else (m.buf, m.len) ∷ asked ms

-- A call hands to ioctl messages that write `bytes` and read into `blocks`.
abbrev pub Hands : Memory → List ℕ → List (ℕ × ℕ) → (Ioctl → ℤ) → ℤ → Type 0
Hands mem bytes blocks call fd =
    (msgs : List I2cMsg) × ((ioctl : Ioctl) → call ioctl ≡ ioctl fd msgs)
    × (written mem msgs ≡ bytes)
    × (asked msgs ≡ blocks)

-- The messages of i2c_xfer for a buffer that is not NULL.
abbrev xfer_messages : ℕ → ℕ → ℕ → ℕ → ℕ → List I2cMsg
xfer_messages addr tx tx_len rx rx_len =
    (if ltb 0 tx_len then message addr 0 tx_len tx ∷ [] else [])
    ++ (if not (rx == 0) && ltb 0 rx_len then message addr i2c_m_rd rx_len rx ∷ [] else [])

module _ (mem : Memory) (fd : ℤ) (addr tx tx_len : ℕ) (tx_set : tx ≢ 0) where
  xfer_lem :
      (rx rx_len : ℕ)
      → Hands mem
          (read_bytes mem tx (tx_len % 2 ^ 16))
          (if not (rx == 0) && ltb 0 rx_len then (rx, rx_len % 2 ^ 16) ∷ [] else [])
          (λ ioctl. i2c_xfer ioctl fd addr tx tx_len rx rx_len)
          fd
  unfolding i2c_xfer
  xfer_lem rx rx_len = (
    xfer_messages addr tx tx_len rx rx_len,
    λ ioctl. rw (==_false tx 0 tx_set) refl,
    elim (Bool-cases (ltb 0 tx_len)) [
      | inl e ↦ elim (Bool-cases (not (rx == 0) && ltb 0 rx_len)) [
        | inl f ↦ rw (e, f) (append-nil (read_bytes mem tx (tx_len % 2 ^ 16)))
        | inr f ↦ rw (e, f) (append-nil (read_bytes mem tx (tx_len % 2 ^ 16)))
      ]
      | inr e ↦
          let empty : tx_len ≡ 0 = ground arith in
          elim (Bool-cases (not (rx == 0) && ltb 0 rx_len)) [
            | inl f ↦ rw (empty, f) refl
            | inr f ↦ rw (empty, f) refl
          ]
    ],
    elim (Bool-cases (ltb 0 tx_len)) [
      | inl e ↦ elim (Bool-cases (not (rx == 0) && ltb 0 rx_len)) [
        | inl f ↦ rw (e, f) refl
        | inr f ↦ rw (e, f) refl
      ]
      | inr e ↦ elim (Bool-cases (not (rx == 0) && ltb 0 rx_len)) [
        | inl f ↦ rw (e, f) refl
        | inr f ↦ rw (e, f) refl
      ]
    ],
  )

  -- For a buffer that is not NULL, the messages that i2c_xfer and i2c_write hand to ioctl
  -- write its first bytes, as many as the length has modulo 2 ^ 16; those of i2c_write_reg8
  -- and i2c_write_reg16 write the one byte or the two bytes of the register before them; and
  -- only i2c_xfer reads, into its other buffer, a length modulo 2 ^ 16, where this buffer is
  -- not NULL and the length is not 0.
  pub transfers_lem :
      (rx rx_len reg : ℕ)
      → Hands mem
          (read_bytes mem tx (tx_len % 2 ^ 16))
          (if not (rx == 0) && ltb 0 rx_len then (rx, rx_len % 2 ^ 16) ∷ [] else [])
          (λ ioctl. i2c_xfer ioctl fd addr tx tx_len rx rx_len)
          fd
        × Hands mem
            (read_bytes mem tx (tx_len % 2 ^ 16))
            []
            (λ ioctl. i2c_write ioctl fd addr tx tx_len)
            fd
        × Hands mem
            (read_bytes mem reg 1 ++ read_bytes mem tx (tx_len % 2 ^ 16))
            []
            (λ ioctl. i2c_write_reg8 ioctl fd addr reg tx tx_len)
            fd
        × Hands mem
            (read_bytes mem reg 2 ++ read_bytes mem tx (tx_len % 2 ^ 16))
            []
            (λ ioctl. i2c_write_reg16 ioctl fd addr reg tx tx_len)
            fd
  unfolding i2c_write i2c_write_reg8 i2c_write_reg16
  transfers_lem rx rx_len reg =
      let rest = append-nil (read_bytes mem tx (tx_len % 2 ^ 16)) in
      (
        xfer_lem rx rx_len,
        xfer_lem 0 0,
        (
          message addr 0 1 reg ∷ message addr 0 tx_len tx ∷ [],
          λ ioctl. refl,
          ap (λ bs. read_bytes mem reg 1 ++ bs) rest,
          refl,
        ),
        (
          message addr 0 2 reg ∷ message addr 0 tx_len tx ∷ [],
          λ ioctl. refl,
          ap (λ bs. read_bytes mem reg 2 ++ bs) rest,
          refl,
        ),
      )

-- For a number below 2 ^ 32, the name of the device is not cut by the 20 bytes that it is
-- printed into, and the number is read back from behind its prefix.
pub device_name_lem :
    (n : ℕ)
    → n < 2 ^ 32
    → (device_name n ≡ dev_i2c ++ decimal n)
      × (atoi (drop (length dev_i2c) (device_name n)) ≡ pos n)
unfolding device_name atoi_loop
device_name_lem n h =
    let whole =
      take_all (dev_i2c ++ decimal n) 19 (omega (arith, length-digits (suc n) n 9 (omega arith))) in
    (
      whole,
      ap (λ xs. atoi (drop (length dev_i2c) xs)) whole
          ∙ ap atoi (sym (append-nil (decimal n)))
          ∙ atoi-decimal n [],
    )
