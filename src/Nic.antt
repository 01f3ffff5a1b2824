-- ===== src/Nic.antt =====
-- drivers/e1000.c: the rings of the network card. The device's registers are a function from their offset, which the
-- code reads and writes; what the device itself does to the registers and the descriptors happens between two calls.
-- A packet is the function that gives its bytes by their offset.
pub mod Ring
use Prim.Native.Nat.{bit_and, bit_or}
use ucas_2024fall_oslab.Base.{
  ℕ, zero, suc, ◌+◌, ◌-◌, ◌*◌, ◌/◌, ◌%◌, ◌^◌, Bool, Option, none, some, ◌==◌, ◌&&◌, leb, ltb,
  update, if◌then◌else◌,
}
use ucas_2024fall_oslab.Pgtable.{kva2pa}

abbrev pub Packet : Type 0
Packet = ℕ → ℕ

pub record TxDesc : Type 0 where
  pub addr : ℕ
  pub length : ℕ
  pub cmd : ℕ
  pub status : ℕ

pub record RxDesc : Type 0 where
  pub addr : ℕ
  pub length : ℕ
  pub csum : ℕ
  pub status : ℕ
  pub errors : ℕ
  pub special : ℕ

pub record Nic : Type 0 where
  pub reg : ℕ → ℕ
  pub tx_desc : ℕ → TxDesc
  pub rx_desc : ℕ → RxDesc
  pub tx_pkt_buffer : ℕ → Packet
  pub rx_pkt_buffer : ℕ → Packet

-- where the linker puts the arrays
pub record Addresses : Type 0 where
  pub tx_desc_array : ℕ
  pub rx_desc_array : ℕ
  pub tx_pkt : ℕ → ℕ
  pub rx_pkt : ℕ → ℕ

abbrev pub txdescs : ℕ
txdescs = 64

abbrev pub rxdescs : ℕ
rxdescs = 64

abbrev pub pkt_size : ℕ
pkt_size = 2048

-- registers of drivers/e1000.h
abbrev pub icr : ℕ
icr = 0xc0

abbrev pub ims : ℕ
ims = 0xd0

abbrev pub imc : ℕ
imc = 0xd8

abbrev pub rctl : ℕ
rctl = 0x100

abbrev pub tctl : ℕ
tctl = 0x400

abbrev pub rdbal : ℕ
rdbal = 0x2800

abbrev pub rdbah : ℕ
rdbah = 0x2804

abbrev pub rdlen : ℕ
rdlen = 0x2808

abbrev pub rdh : ℕ
rdh = 0x2810

abbrev pub rdt : ℕ
rdt = 0x2818

abbrev pub tdbal : ℕ
tdbal = 0x3800

abbrev pub tdbah : ℕ
tdbah = 0x3804

abbrev pub tdlen : ℕ
tdlen = 0x3808

abbrev pub tdh : ℕ
tdh = 0x3810

abbrev pub tdt : ℕ
tdt = 0x3818

abbrev pub ra : ℕ
ra = 0x5400

abbrev pub icr_txqe : ℕ
icr_txqe = 2

abbrev pub icr_rxdmt0 : ℕ
icr_rxdmt0 = 16

-- e1000_write_reg
unfoldable pub write_reg : ℕ → ℕ → Nic → Nic
write_reg r v n = record n { reg = update n.reg r v }

-- `status & E1000_TXD_STAT_DD`, and the same bit of a receive descriptor
abbrev pub is_done : ℕ → Bool
is_done status = status % 2 == 1

-- `while (0 != e1000_read_reg(e1000, E1000_ICR));` on what the register gives at each read; `none` is a loop that
-- goes on.
unfoldable pub drain : ℕ → (ℕ → ℕ) → ℕ → Option ℕ
drain zero reads i = none
drain (suc n) reads i =
    let rest = drain n reads (i + 1) in if reads i == 0 then some (i + 1) else rest

-- e1000_reset, less the delay: `reads` is what the interrupt register gives, of which the code makes `n` at most
unfoldable pub e1000_reset : ℕ → (ℕ → ℕ) → Nic → Option Nic
unfolding write_reg
e1000_reset n reads k =
    let stopped = write_reg tctl 0 (write_reg rctl 0 k) in
    let cleared = write_reg rdt 0 (write_reg rdh 0 (write_reg tdt 0 (write_reg tdh 0 stopped))) in
    let masked = write_reg ims (bit_or icr_txqe icr_rxdmt0) (write_reg imc (2 ^ 32 - 1) cleared) in
    elim (drain n reads 0) [ none ↦ none | some i ↦ some masked ]

-- `((~E1000_TXD_CMD_DEXT) & E1000_TXD_CMD_RS) | E1000_TXD_CMD_EOP`
abbrev pub tx_cmd : ℕ
tx_cmd = bit_or (bit_and (2 ^ 32 - 1 - 0x20) 8) 1

-- the loop of e1000_configure_tx, from descriptor `i` on
unfoldable pub init_tx_desc : ℕ → ℕ → Addresses → Nic → Nic
unfolding kva2pa
init_tx_desc zero i a k = k
init_tx_desc (suc n) i a k = init_tx_desc n (i + 1) a (record k {
  tx_desc =
      update k.tx_desc i
        (record { cmd = tx_cmd; status = 1; length = pkt_size; addr = kva2pa (a.tx_pkt i) });
})

-- e1000_configure_tx; a descriptor has 16 bytes
unfoldable pub e1000_configure_tx : Addresses → Nic → Nic
unfolding write_reg kva2pa
e1000_configure_tx a k =
    let pa = kva2pa a.tx_desc_array in
    let ring = write_reg tdlen (txdescs * 16) (
      write_reg tdbah (pa / 2 ^ 32) (write_reg tdbal (pa % 2 ^ 32) (init_tx_desc txdescs 0 a k))) in
    write_reg tctl (bit_or (bit_or (bit_or 8 2) (0x10 * 2 ^ 4)) (0x40 * 2 ^ 12))
      (write_reg tdt 0 (write_reg tdh 0 ring))

-- the loop of e1000_configure_rx
unfoldable pub init_rx_desc : ℕ → ℕ → Addresses → Nic → Nic
unfolding kva2pa
init_rx_desc zero i a k = k
init_rx_desc (suc n) i a k = init_rx_desc n (i + 1) a (record k {
  rx_desc = update k.rx_desc i (record {
    addr = kva2pa (a.rx_pkt i);
    csum = 0;
    status = 0;
    errors = 0;
    length = 0;
    special = 0;
  });
})

-- `RAL0_v` and `RAH0_v` of the fixed address 00:0a:35:00:1e:53
abbrev pub ral0 : ℕ
ral0 = bit_or (bit_or (bit_or (0 * 2 ^ 24) (0x35 * 2 ^ 16)) (0xa * 2 ^ 8)) 0

abbrev pub rah0 : ℕ
rah0 = bit_or (bit_or (2 ^ 31) (0x53 * 2 ^ 8)) 0x1e

-- e1000_configure_rx
unfoldable pub e1000_configure_rx : Addresses → Nic → Nic
unfolding write_reg kva2pa
e1000_configure_rx a k =
    let pa = kva2pa a.rx_desc_array in
    let named = init_rx_desc rxdescs 0 a (write_reg (ra + 4) rah0 (write_reg ra ral0 k)) in
    let ring =
      write_reg rdlen (rxdescs * 16)
        (write_reg rdbah (pa / 2 ^ 32) (write_reg rdbal (pa % 2 ^ 32) named)) in
    write_reg rctl (bit_and (bit_or 2 0x8000) (2 ^ 32 - 1 - 0x2000000))
      (write_reg rdt (rxdescs - 1) (write_reg rdh 0 ring))

-- e1000_init
unfoldable pub e1000_init : ℕ → (ℕ → ℕ) → Addresses → Nic → Option Nic
e1000_init n reads a k = elim (e1000_reset n reads k) [
  | none ↦ none
  | some r ↦ some (e1000_configure_rx a (e1000_configure_tx a r))
]

-- `memcpy(tx_pkt_buffer[tail], packet, n)`: the buffers lie one after the other, and a packet longer than its own
-- goes on in the next ones. What it leaves behind the last one is not part of the model.
abbrev pub copy_packet : ℕ → ℕ → Packet → (ℕ → Packet) → ℕ → Packet
copy_packet tail n packet buffers i o =
    if leb (tail * pkt_size) (i * pkt_size + o) && ltb (i * pkt_size + o) (tail * pkt_size + n)
    then packet (i * pkt_size + o - tail * pkt_size)
    else buffers i o

-- e1000_transmit. The length of a descriptor has 16 bits; a length beyond the buffer's 2048 bytes is not refused.
unfoldable pub e1000_transmit : Packet → ℕ → Nic → ℕ × Nic
unfolding write_reg
e1000_transmit packet length k =
    let tail = k.reg tdt in
    let d = k.tx_desc tail in
    let sent = record k {
      tx_pkt_buffer = copy_packet tail length packet k.tx_pkt_buffer;
      tx_desc =
          update k.tx_desc tail (record d { length = length % 2 ^ 16; status = d.status - 1 });
    } in
    if is_done d.status then (length, write_reg tdt ((tail + 1) % txdescs) sent) else (0, k)

-- e1000_poll: the length, and the packet that it copies into the caller's buffer
unfoldable pub e1000_poll : Nic → ℕ × Packet × Nic
unfolding write_reg
e1000_poll k =
    let tail = (k.reg rdt + 1) % rxdescs in
    let d = k.rx_desc tail in
    let taken = record k {
      rx_desc = update k.rx_desc tail (record d { status = 0; length = 0 });
    } in
    if is_done d.status
    then (d.length, k.rx_pkt_buffer tail, write_reg rdt tail taken)
    else (0, k.rx_pkt_buffer tail, k)

-- update_tx_desc
unfoldable pub update_tx_desc : Nic → ℕ
update_tx_desc k = if is_done (k.tx_desc (k.reg tdt)).status then 1 else 0
