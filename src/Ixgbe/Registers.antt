-- ===== src/Ixgbe/Registers.antt =====
-- The offsets of the device registers that the driver uses (send/ixgbe.h, recv/ixgbe.h).
use ixgbe82599_driver.Base.{ℕ, ◌+◌, ◌-◌, ◌*◌, ltb, leb, if◌then◌else◌}

abbrev pub ctrl : ℕ
ctrl = 0x00000

abbrev pub ctrl_ext : ℕ
ctrl_ext = 0x00018

abbrev pub eec : ℕ
eec = 0x10010

abbrev pub eimc : ℕ
eimc = 0x00888

abbrev pub rdrxctl : ℕ
rdrxctl = 0x02f00

abbrev pub rxctrl : ℕ
rxctrl = 0x03000

abbrev pub fctrl : ℕ
fctrl = 0x05080

abbrev pub dmatxctl : ℕ
dmatxctl = 0x04a80

abbrev pub dtxmxszrq : ℕ
dtxmxszrq = 0x08100

abbrev pub rttdcs : ℕ
rttdcs = 0x04900

abbrev pub gprc : ℕ
gprc = 0x04074

abbrev pub gptc : ℕ
gptc = 0x04080

abbrev pub gorcl : ℕ
gorcl = 0x04088

abbrev pub gorch : ℕ
gorch = 0x0408c

abbrev pub gotcl : ℕ
gotcl = 0x04090

abbrev pub gotch : ℕ
gotch = 0x04094

abbrev pub hlreg0 : ℕ
hlreg0 = 0x04240

abbrev pub autoc : ℕ
autoc = 0x042a0

abbrev pub links : ℕ
links = 0x042a4

abbrev pub rdbal : ℕ → ℕ
rdbal i = if ltb i 64 then 0x01000 + i * 0x40 else 0x0d000 + (i - 64) * 0x40

abbrev pub rdbah : ℕ → ℕ
rdbah i = if ltb i 64 then 0x01004 + i * 0x40 else 0x0d004 + (i - 64) * 0x40

abbrev pub rdlen : ℕ → ℕ
rdlen i = if ltb i 64 then 0x01008 + i * 0x40 else 0x0d008 + (i - 64) * 0x40

abbrev pub rdh : ℕ → ℕ
rdh i = if ltb i 64 then 0x01010 + i * 0x40 else 0x0d010 + (i - 64) * 0x40

abbrev pub rdt : ℕ → ℕ
rdt i = if ltb i 64 then 0x01018 + i * 0x40 else 0x0d018 + (i - 64) * 0x40

abbrev pub rxdctl : ℕ → ℕ
rxdctl i = if ltb i 64 then 0x01028 + i * 0x40 else 0x0d028 + (i - 64) * 0x40

abbrev pub srrctl : ℕ → ℕ
srrctl i =
    if leb i 15
    then 0x02100 + i * 4
    else if ltb i 64
    then 0x01014 + i * 0x40
    else 0x0d014 + (i - 64) * 0x40

abbrev pub dca_rxctrl : ℕ → ℕ
dca_rxctrl i =
    if leb i 15
    then 0x02200 + i * 4
    else if ltb i 64
    then 0x0100c + i * 0x40
    else 0x0d00c + (i - 64) * 0x40

abbrev pub rxpbsize : ℕ → ℕ
rxpbsize i = 0x03c00 + i * 4

abbrev pub tdbal : ℕ → ℕ
tdbal i = 0x06000 + i * 0x40

abbrev pub tdbah : ℕ → ℕ
tdbah i = 0x06004 + i * 0x40

abbrev pub tdlen : ℕ → ℕ
tdlen i = 0x06008 + i * 0x40

abbrev pub tdh : ℕ → ℕ
tdh i = 0x06010 + i * 0x40

abbrev pub tdt : ℕ → ℕ
tdt i = 0x06018 + i * 0x40

abbrev pub txdctl : ℕ → ℕ
txdctl i = 0x06028 + i * 0x40

abbrev pub txpbsize : ℕ → ℕ
txpbsize i = 0x0cc00 + i * 4
