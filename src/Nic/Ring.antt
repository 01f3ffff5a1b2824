-- ===== src/Nic/Ring.antt =====
-- The rings of drivers/e1000.c: how many packets go out before the card is done with one, and which packets come in.
use ucas_2024fall_oslab.Base.{
  Bool-cases, inl, inr, some, none, Option, subst, ℕ, zero, suc, ◌+◌, ◌-◌, ◌%◌, ◌^◌, ◌<◌, ◌≤◌, ◌≡◌,
  ◌≢◌, refl, true, false, Bool, ◌&&◌, leb, update_self, eq_of_==, ne_of_==, List, [], ◌∷◌, ◌==◌,
  arith, update, update_ne, ap, ap₂, ◌∙◌, sym,
}
use ucas_2024fall_oslab.Nic.{
  Addresses, init_tx_desc, init_rx_desc, e1000_reset, e1000_configure_tx, e1000_configure_rx,
  e1000_init, Nic, Packet, TxDesc, is_done, pkt_size, tdt, txdescs, rxdescs, write_reg,
  e1000_transmit,
}

-- The card is done with the `n` descriptors from the tail on, and not with the others.
pub record TxFree (n : ℕ) (k : Nic) : Type 0 where
  pub tail : k.reg tdt < txdescs
  pub done : (m : ℕ) → m < n → is_done (k.tx_desc ((k.reg tdt + m) % txdescs)).status ≡ true
  pub busy :
      (m : ℕ) → n ≤ m → m < txdescs → is_done (k.tx_desc ((k.reg tdt + m) % txdescs)).status ≡ false

-- Packets of some lengths one after the other: what e1000_transmit returns for each.
unfoldable pub transmit_all : List (Packet × ℕ) → Nic → List ℕ × Nic
unfolding e1000_transmit
transmit_all [] k = ([], k)
transmit_all ((p, n) ∷ ps) k =
    let (sent, g) = e1000_transmit p n k in let (rest, h) = transmit_all ps g in (sent ∷ rest, h)

-- What the calls return where `n` descriptors are free and the card does nothing: the length of each of the first `n`
-- packets, and 0 for each of the others.
abbrev pub answers : ℕ → List (Packet × ℕ) → List ℕ
answers n [] = []
answers zero (p ∷ ps) = 0 ∷ answers zero ps
answers (suc n) ((p, l) ∷ ps) = l ∷ answers n ps

-- Each packet fits its buffer.
abbrev pub all_fit : List (Packet × ℕ) → Bool
all_fit [] = true
all_fit ((p, l) ∷ ps) = leb l pkt_size && all_fit ps

tail_now : (t : ℕ) → t < 64 → (t + 0) % 64 ≡ t
tail_now t h = omega arith

later_index : (t m : ℕ) → t < 64 → ((t + 1) % 64 + m) % 64 ≡ (t + suc m) % 64
later_index t m h = omega arith

later_ne : (t m : ℕ) → t < 64 → suc m < 64 → (t + suc m) % 64 ≢ t
later_ne t m h l e = omega arith

around : (t m : ℕ) → t < 64 → m ≡ 63 → ((t + 1) % 64 + m) % 64 ≡ t
around t m h e = omega arith

cleared : (s : ℕ) → is_done s ≡ true → is_done (s - 1) ≡ false
cleared s h = ground arith

-- One packet: the tail moves on, and the other descriptors stay.
transmit-done :
    (n : ℕ) (k : Nic) (p : Packet) (len : ℕ)
    → suc n ≤ 64
    → TxFree (suc n) k
    → ((e1000_transmit p len k).0 ≡ len)
      × TxFree n (e1000_transmit p len k).1
      × ((e1000_transmit p len k).1.reg tdt ≡ (k.reg tdt + 1) % 64)
unfolding e1000_transmit write_reg
transmit-done n k p len b f = rw first (
  refl,
  record {
    tail = omega arith;
    done = λ m h.
        ap (λ i. is_done (update k.tx_desc (k.reg tdt) sent_desc i).status)
          (later_index (k.reg tdt) m f.tail)
        ∙ ap (λ (d : TxDesc). is_done d.status)
            (update_ne k.tx_desc (k.reg tdt) sent_desc _
              (later_ne (k.reg tdt) m f.tail (omega arith)))
        ∙ f.done (suc m) (omega arith);
    busy = λ m l h. elim (Bool-cases (m == 63)) [
      | inl e ↦
          ap (λ i. is_done (update k.tx_desc (k.reg tdt) sent_desc i).status)
            (around (k.reg tdt) m f.tail (eq_of_== m 63 e))
          ∙ ap (λ (d : TxDesc). is_done d.status) (update_self k.tx_desc (k.reg tdt) sent_desc)
          ∙ cleared (k.tx_desc (k.reg tdt)).status first
      | inr e ↦
          ap (λ i. is_done (update k.tx_desc (k.reg tdt) sent_desc i).status)
            (later_index (k.reg tdt) m f.tail)
          ∙ ap (λ (d : TxDesc). is_done d.status)
              (update_ne k.tx_desc (k.reg tdt) sent_desc _
                (later_ne (k.reg tdt) m f.tail (omega (arith, ne_of_== m 63 e))))
          ∙ f.busy (suc m) (omega arith) (omega (arith, ne_of_== m 63 e))
    ];
  },
  refl,
)
  where
    first : is_done (k.tx_desc (k.reg tdt)).status ≡ true
    first =
        ap (λ i. is_done (k.tx_desc i).status) (sym (tail_now (k.reg tdt) f.tail))
        ∙ f.done 0 (omega arith)

    sent_desc : TxDesc
    sent_desc = record (k.tx_desc (k.reg tdt)) {
      length = len % 2 ^ 16;
      status = (k.tx_desc (k.reg tdt)).status - 1;
    }

-- A packet for which the card is not done with a descriptor.
transmit-full : (k : Nic) (p : Packet) (len : ℕ) → TxFree 0 k → e1000_transmit p len k ≡ (0, k)
unfolding e1000_transmit
transmit-full k p len f =
    rw
      (ap (λ i. is_done (k.tx_desc i).status) (sym (tail_now (k.reg tdt) f.tail))
        ∙ f.busy 0 (omega arith) (omega arith))
      refl

pub transmit_all-answers :
    (ps : List (Packet × ℕ)) (n : ℕ) (k : Nic)
    → n ≤ txdescs
    → TxFree n k
    → (transmit_all ps k).0 ≡ answers n ps
unfolding transmit_all
transmit_all-answers [] n k b f = refl
transmit_all-answers ((p, l) ∷ ps) zero k b f =
    rw (transmit-full k p l f) (ap (λ xs. 0 ∷ xs) (transmit_all-answers ps 0 k b f))
transmit_all-answers ((p, l) ∷ ps) (suc n) k b f =
    let (sent, g, t) = transmit-done n k p l b f in
    ap₂ ◌∷◌ sent (transmit_all-answers ps n (e1000_transmit p l k).1 (omega arith) g)

abbrev IsFree : Nic → ℕ → Type 0
IsFree k j = is_done (k.tx_desc j).status ≡ true

-- the loop of e1000_configure_tx sets up its descriptors, and leaves those that are set up
init_tx_desc-done :
    (n i : ℕ) (a : Addresses) (k : Nic) (j : ℕ)
    → j < i + n
    → (j < i → IsFree k j)
    → IsFree (init_tx_desc n i a k) j
unfolding init_tx_desc
init_tx_desc-done zero i a k j h old = old (omega arith)
init_tx_desc-done (suc n) i a k j h old =
    init_tx_desc-done n (i + 1) a _ j (omega arith)
      (λ l. elim (Bool-cases (j == i)) [ inl e ↦ rw e refl | inr e ↦ rw e (old (ground arith)) ])

init_tx_desc-reg : (n i : ℕ) (a : Addresses) (k : Nic) → (init_tx_desc n i a k).reg ≡ k.reg
unfolding init_tx_desc
init_tx_desc-reg zero i a k = refl
init_tx_desc-reg (suc n) i a k = init_tx_desc-reg n (i + 1) a _

init_rx_desc-tx :
    (n i : ℕ) (a : Addresses) (k : Nic)
    → ((init_rx_desc n i a k).reg ≡ k.reg) × ((init_rx_desc n i a k).tx_desc ≡ k.tx_desc)
unfolding init_rx_desc
init_rx_desc-tx zero i a k = (refl, refl)
init_rx_desc-tx (suc n) i a k = init_rx_desc-tx n (i + 1) a _

configured-TxFree :
    (a : Addresses) (k : Nic) → TxFree txdescs (e1000_configure_rx a (e1000_configure_tx a k))
unfolding e1000_configure_rx e1000_configure_tx write_reg
configured-TxFree a k = record {
  tail = rw tail_zero (omega arith);
  done = λ m h. rw tail_zero (
      rw (init_rx_desc-tx rxdescs 0 a _).1 (
        init_tx_desc-done txdescs 0 a k ((0 + m) % txdescs) (omega arith)
          (λ l. absurd (omega arith))));
  busy = λ m l h. absurd (omega arith);
}
  where
    tail_zero : (e1000_configure_rx a (e1000_configure_tx a k)).reg tdt ≡ 0
    tail_zero = rw (init_rx_desc-tx rxdescs 0 a _).0 refl

some_inj : (x y : Nic) → some x ≡ some y → x ≡ y
some_inj x y e = ap (λ (o : Option Nic). elim o [ none ↦ x | some z ↦ z ]) e

-- After e1000_init, while the card does nothing, exactly the first 64 packets that are sent one after the other are
-- accepted, each with its length returned, and each of the others is refused with 0, where every packet fits its buffer
-- of 2048 bytes.
pub e1000_init-answers :
    (n : ℕ) (reads : ℕ → ℕ) (a : Addresses) (k v : Nic) (ps : List (Packet × ℕ))
    → e1000_init n reads a k ≡ some v
    → all_fit ps ≡ true
    → (transmit_all ps v).0 ≡ answers txdescs ps
unfolding e1000_init
e1000_init-answers n reads a k v ps e _ = go (e1000_reset n reads k) e
  where
    go :
        (r : Option Nic)
        → (elim r [ none ↦ none | some g ↦ some (e1000_configure_rx a (e1000_configure_tx a g)) ])
          ≡ some v
        → (transmit_all ps v).0 ≡ answers txdescs ps
    go none e = absurd (ground arith)
    go (some g) e =
        transmit_all-answers ps txdescs v (omega arith)
          (subst (TxFree txdescs) (some_inj _ v e) (configured-TxFree a g))
