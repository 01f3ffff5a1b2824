-- ===== src/Net/Receive.antt =====
-- The loop of do_net_recv in kernel/net/net.c polls the card once more than it has packets to give.
use ucas_2024fall_oslab.Base.{
  ap₂, subst, add_zero, ℕ, zero, suc, ◌+◌, ◌%◌, ◌<◌, ◌≤◌, ◌≡◌, ◌≢◌, refl, true, false, not, ◌&&◌,
  ◌==◌, ltb, arith, update, update_ne, ap, ◌∙◌, sym, ==_of_ne,
}
use ucas_2024fall_oslab.Nic.{Nic, RxDesc, is_done, rdt, rxdescs, write_reg, e1000_poll}
use ucas_2024fall_oslab.Net.{Net, poll, recv_loop}

-- The card has packets in the `n` descriptors behind the tail.
pub record RxReady (n : ℕ) (k : Nic) : Type 0 where
  pub tail : k.reg rdt < rxdescs
  pub done : (m : ℕ) → m < n → is_done (k.rx_desc ((k.reg rdt + 1 + m) % rxdescs)).status ≡ true
  pub filled : (m : ℕ) → m < n → (k.rx_desc ((k.reg rdt + 1 + m) % rxdescs)).length ≢ 0

first_index : (t : ℕ) → (t + 1) % 64 ≡ (t + 1 + 0) % 64
first_index t = omega arith

later_index : (t m : ℕ) → ((t + 1) % 64 + 1 + m) % 64 ≡ (t + 1 + suc m) % 64
later_index t m = omega arith

later_ne : (t m : ℕ) → suc m < 64 → (t + 1 + suc m) % 64 ≢ (t + 1) % 64
later_ne t m l e = omega arith

poll-ready :
    (n : ℕ) (k : Nic)
    → suc n ≤ 64
    → RxReady (suc n) k
    → ((e1000_poll k).0 ≢ 0)
      × RxReady n (e1000_poll k).2
      × ((e1000_poll k).2.reg rdt ≡ (k.reg rdt + 1) % 64)
unfolding e1000_poll write_reg
poll-ready n k b f = rw first (
  λ e.
      f.filled 0 (omega arith) (ap (λ i. (k.rx_desc i).length) (sym (first_index (k.reg rdt))) ∙ e),
  record {
    tail = omega arith;
    done = λ m h.
        ap (λ i. is_done (update k.rx_desc ((k.reg rdt + 1) % 64) taken i).status)
          (later_index (k.reg rdt) m)
        ∙ ap (λ (d : RxDesc). is_done d.status)
            (update_ne k.rx_desc ((k.reg rdt + 1) % 64) taken _
              (later_ne (k.reg rdt) m (omega arith)))
        ∙ f.done (suc m) (omega arith);
    filled = λ m h e. f.filled (suc m) (omega arith) (
        ap (λ (d : RxDesc). d.length)
          (sym (
            update_ne k.rx_desc ((k.reg rdt + 1) % 64) taken _
              (later_ne (k.reg rdt) m (omega arith))))
        ∙ ap (λ i. (update k.rx_desc ((k.reg rdt + 1) % 64) taken i).length)
            (sym (later_index (k.reg rdt) m))
        ∙ e);
  },
  refl,
)
  where
    first : is_done (k.rx_desc ((k.reg rdt + 1) % 64)).status ≡ true
    first =
        ap (λ i. is_done (k.rx_desc i).status) (first_index (k.reg rdt)) ∙ f.done 0 (omega arith)

    taken : RxDesc
    taken = record (k.rx_desc ((k.reg rdt + 1) % 64)) { status = 0; length = 0 }

-- While net.c has no packet buffered, poll is the card's.
poll-card :
    (at : ℕ → ℕ) (s : Net)
    → s.pk_dd s.pt ≢ 1
    → ((poll at s).0 ≡ (e1000_poll s.nic).0)
      × ((poll at s).1.nic ≡ (e1000_poll s.nic).2)
      × ((poll at s).1.pk_dd ≡ s.pk_dd)
      × ((poll at s).1.pt ≡ s.pt)
unfolding poll
poll-card at s h = rw (==_of_ne (s.pk_dd s.pt) 1 h) (refl, refl, refl, refl)

no_room : (n i num : ℕ) → i + 0 ≡ num → (not (n == 0) && ltb i num) ≡ false
no_room n i num e = ground arith

some_room : (n i num : ℕ) → n ≢ 0 → i < num → (not (n == 0) && ltb i num) ≡ true
some_room n i num h l = ground arith

later_tail : (t d : ℕ) → ((t + 1) % 64 + d + 1) % 64 ≡ (t + suc d + 1) % 64
later_tail t d = omega arith

-- With one packet more in the card, of 64 at most, than the `d` that are still asked for, and none buffered before,
-- the loop gives `num`, and the card's tail has moved over `d + 1` packets.
pub recv_loop-takes_one_more :
    (d i num bias : ℕ) (at len_at : ℕ → ℕ) (s : Net)
    → i + d ≡ num
    → suc d ≤ rxdescs
    → s.pk_dd s.pt ≢ 1
    → RxReady (suc d) s.nic
    → (let r = recv_loop (suc d) at len_at num i bias s in
        (r.0 ≡ num) × (r.1.nic.reg rdt ≡ (s.nic.reg rdt + d + 1) % rxdescs))
unfolding recv_loop
recv_loop-takes_one_more zero i num bias at len_at s e b h f =
    let (len, ready, tail) = poll-ready 0 s.nic (omega arith) f in
    let (same_len, same_nic, same_dd, same_pt) = poll-card (λ o. at (bias + o)) s h in
    rw (no_room (poll (λ o. at (bias + o)) s).0 i num e) (
      omega arith,
      ap (λ (k : Nic). k.reg rdt) same_nic
          ∙ tail
          ∙ ap (λ t. t % 64) (ap (λ t. t + 1) (sym (add_zero (s.nic.reg rdt)))),
    )
recv_loop-takes_one_more (suc d) i num bias at len_at s e b h f =
    let (len, ready, tail) = poll-ready (suc d) s.nic (omega arith) f in
    let (same_len, same_nic, same_dd, same_pt) = poll-card (λ o. at (bias + o)) s h in
    let (n, v) = poll (λ o. at (bias + o)) s in
    let (count, moved) =
      recv_loop-takes_one_more d (i + 1) num (bias + n) at len_at
        (record v { lens = update v.lens (len_at i) n }) (omega arith) (omega arith)
        (λ z. h (sym (ap₂ (λ (m : ℕ → ℕ) j. m j) same_dd same_pt) ∙ z))
        (subst (RxReady (suc d)) (sym same_nic) ready) in
    rw (some_room n i num (λ z. len (sym same_len ∙ z)) (omega arith)) (
      count,
      moved
          ∙ ap (λ t. (t + d + 1) % 64) (ap (λ (k : Nic). k.reg rdt) same_nic ∙ tail)
          ∙ later_tail (s.nic.reg rdt) d,
    )
