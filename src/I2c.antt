-- ===== src/I2c.antt =====
-- posix/i2cdev/i2cdev.c: the messages that the accesses of a device hand to ioctl, which is a
-- parameter, and the program around them.
pub mod Messages
mod Tests
use ohmylib.Prelude.{
  ℕ, ◌+◌, ◌-◌, ◌%◌, ◌^◌, Bool, true, false, ◌&&◌, not, Option, none, some, List, [], ◌∷◌, ◌++◌, ltb,
  ◌==◌, take, if◌then◌else◌,
}
use ohmylib.Prelude.Decimal.{decimal, atoi}
use ohmylib.Prelude.Int.{ℤ, pos, negsuc, ltb_ℤ, pos_part, neg_part}

-- struct i2c_msg of the kernel: the address, the flags and the length have 16 bits.
pub record I2cMsg : Type 0 where
  pub addr : ℕ
  pub flags : ℕ
  pub len : ℕ
  pub buf : ℕ

abbrev pub i2c_m_rd : ℕ
i2c_m_rd = 1

abbrev pub Ioctl : Type 0
Ioctl = ℤ → List I2cMsg → ℤ

-- A pointer is the number of an address; NULL is 0.
abbrev pub message : ℕ → ℕ → ℕ → ℕ → I2cMsg
message addr flags len buf = record { addr = addr; flags = flags; len = len % 2 ^ 16; buf = buf }

module _ (ioctl : Ioctl) where
  unfoldable pub i2c_xfer : ℤ → ℕ → ℕ → ℕ → ℕ → ℕ → ℤ
  i2c_xfer fd addr tx tx_len rx rx_len =
      let first = if not (tx == 0) && ltb 0 tx_len then message addr 0 tx_len tx ∷ [] else [] in
      let second =
        if not (rx == 0) && ltb 0 rx_len then message addr i2c_m_rd rx_len rx ∷ [] else [] in
      ioctl fd (first ++ second)

  unfoldable pub i2c_write : ℤ → ℕ → ℕ → ℕ → ℤ
  unfolding i2c_xfer
  i2c_write fd addr buf len = i2c_xfer fd addr buf len 0 0

  -- `reg` is the address of the parameter.
  unfoldable pub i2c_write_reg8 : ℤ → ℕ → ℕ → ℕ → ℕ → ℤ
  i2c_write_reg8 fd addr reg buf len = ioctl fd (message addr 0 1 reg ∷ message addr 0 len buf ∷ [])

  unfoldable pub i2c_write_reg16 : ℤ → ℕ → ℕ → ℕ → ℕ → ℤ
  i2c_write_reg16 fd addr reg buf len =
      ioctl fd (message addr 0 2 reg ∷ message addr 0 len buf ∷ [])

-- `/dev/i2c-`
abbrev pub dev_i2c : List ℕ
dev_i2c = 47 ∷ 100 ∷ 101 ∷ 118 ∷ 47 ∷ 105 ∷ 50 ∷ 99 ∷ 45 ∷ []

-- The text in `i2cdev` after snprintf, for its 20 bytes.
unfoldable pub device_name : ℕ → List ℕ
device_name i2cnum = take (20 - 1) (dev_i2c ++ decimal i2cnum)

-- The name that is opened, if one is, and what open returns.
unfoldable pub i2c_open : (List ℕ → ℤ) → ℕ → ℤ
unfolding device_name
i2c_open open' i2cnum = open' (device_name i2cnum)

-- `uint32_t i2cnum = atoi(argv[1])`
abbrev pub word_of : ℤ → ℕ
word_of a = (pos_part a + 2 ^ 32 - neg_part a % 2 ^ 32) % 2 ^ 32

-- What main returns, and the descriptors that it closes.
unfoldable pub main : (List ℕ → ℤ) → ℕ → List ℕ → ℤ × List ℤ
unfolding i2c_open
main open' argc arg =
    let fd = i2c_open open' (word_of (atoi arg)) in
    if ltb argc 3
    then (negsuc 0, [])
    else if ltb_ℤ fd (pos 0)
    then (negsuc 0, [])
    else (pos 0, fd ∷ [])
