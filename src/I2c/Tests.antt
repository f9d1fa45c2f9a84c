-- ===== src/I2c/Tests.antt =====
-- A write of more bytes than the length of a message can say.
use ohmylib.Prelude.{
  ◌%◌, ◌^◌, arith, not, ◌&&◌, [], ◌∷◌, ◌++◌, ltb, ◌==◌, Memory, read_bytes, if◌then◌else◌,
}
use ohmylib.Prelude.Int.{pos}
use ohmylib.I2c.{i2c_xfer, i2c_write, i2c_write_reg8, i2c_write_reg16}
use ohmylib.I2c.Messages.{Hands, transfers_lem}

abbrev memory : Memory
memory a = a % 256

transfers_example :
    Hands memory
      (read_bytes memory 512 (65538 % 2 ^ 16))
      (if not (1024 == 0) && ltb 0 3 then (1024, 3 % 2 ^ 16) ∷ [] else [])
      (λ ioctl. i2c_xfer ioctl (pos 3) 80 512 65538 1024 3)
      (pos 3)
    × Hands memory
        (read_bytes memory 512 (65538 % 2 ^ 16))
        []
        (λ ioctl. i2c_write ioctl (pos 3) 80 512 65538)
        (pos 3)
    × Hands memory
        (read_bytes memory 7 1 ++ read_bytes memory 512 (65538 % 2 ^ 16))
        []
        (λ ioctl. i2c_write_reg8 ioctl (pos 3) 80 7 512 65538)
        (pos 3)
    × Hands memory
        (read_bytes memory 7 2 ++ read_bytes memory 512 (65538 % 2 ^ 16))
        []
        (λ ioctl. i2c_write_reg16 ioctl (pos 3) 80 7 512 65538)
        (pos 3)
transfers_example = transfers_lem memory (pos 3) 80 512 65538 (omega arith) 1024 3 7
