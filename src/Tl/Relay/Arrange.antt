-- ===== src/Tl/Relay/Arrange.antt =====
-- tl_rx_list.c, `tr_info_list_arrangement`: which neighbours are left.
use mac.Base.{
  ℕ, ◌≡◌, refl, sym, ap, ◌∙◌, arith, Bool, false, ◌||◌, ◌&&◌, not, List, [], ◌∷◌, none,
  if◌then◌else◌, leb, Bool-cases, inl, inr, get_or,
}
use mac.Tl.Types.{Addr, same_addr, same_addr→eq, TrNode, TrInfo}
use mac.Tl.Lists.{node_addr, nbr_find_addr}
use mac.Tl.Lists.Laws.{Distinct, find_addr-free_addr, free_addr-Distinct}
use mac.Tl.Relay.{drop_nbr, tr_info_list_del_nbr, arrange_from, tr_info_list_arrangement}

-- Some node of the list hears the source well enough and has the address.
abbrev pub near_source : ℕ → List TrInfo → Addr → Bool
near_source thre [] a = false
near_source thre (i ∷ is) a =
    (leb thre (get_or i.rcv_num 0 0) && same_addr i.addr a) || near_source thre is a

-- One after the other, the nodes have kept what they had but the neighbours near the source.
abbrev pub Arranged : (Addr → Bool) → List TrInfo → List TrInfo → Type 0
Arranged near [] [] = Unit {0}
Arranged near [] (o ∷ os) = ⊥
Arranged near (i ∷ is) [] = ⊥
Arranged near (i ∷ is) (o ∷ os) =
    (o.node ≡ i.node)
    × ((b : Addr)
        → nbr_find_addr o.nbr_list b
          ≡ (if near b && not (same_addr b i.addr) then none else nbr_find_addr i.nbr_list b))
    × Arranged near is os

abbrev pub NbrsDistinct : List TrInfo → Type 0
NbrsDistinct [] = Unit {0}
NbrsDistinct (i ∷ is) = Distinct node_addr i.nbr_list × NbrsDistinct is

Arranged-ext :
    (f g : Addr → Bool) (is os : List TrInfo)
    → ((b : Addr) → f b ≡ g b)
    → Arranged f is os
    → Arranged g is os
Arranged-ext f g [] [] e h = tt
Arranged-ext f g [] (o ∷ os) e h = absurd h
Arranged-ext f g (i ∷ is) [] e h = absurd h
Arranged-ext f g (i ∷ is) (o ∷ os) e h =
    (h.0, λ b. rw (← e b) (h.1 b), Arranged-ext f g is os e h.2)

Arranged-start : (is : List TrInfo) → Arranged (λ b. false) is is
Arranged-start [] = tt
Arranged-start (i ∷ is) = (refl, λ b. refl, Arranged-start is)

drop_nbr-node : (a : Addr) (o : TrInfo) → (drop_nbr a o).node ≡ o.node
unfolding drop_nbr
drop_nbr-node a o = ground arith

-- The neighbour with the address goes, unless it is the node itself.
drop_nbr_finds :
    (a b : Addr) (o : TrInfo)
    → Distinct node_addr o.nbr_list
    → nbr_find_addr (drop_nbr a o).nbr_list b
      ≡ (if same_addr a b && not (same_addr b o.addr) then none else nbr_find_addr o.nbr_list b)
unfolding drop_nbr nbr_find_addr
drop_nbr_finds a b o d = elim (Bool-cases (same_addr a b)) [
  | inl e ↦
      let same : same_addr b o.addr ≡ same_addr a o.addr =
        ap (λ t. same_addr t o.addr) (sym (same_addr→eq a b e)) in
      ground (arith, e, same, find_addr-free_addr node_addr o.nbr_list a b d)
  | inr e ↦ ground (arith, e, find_addr-free_addr node_addr o.nbr_list a b d)
]

drop_nbr-Distinct :
    (a : Addr) (o : TrInfo)
    → Distinct node_addr o.nbr_list
    → Distinct node_addr (drop_nbr a o).nbr_list
unfolding drop_nbr
drop_nbr-Distinct a o d = elim (Bool-cases (same_addr a o.addr)) [
  | inl e ↦ rw e d
  | inr e ↦ rw e (free_addr-Distinct node_addr o.nbr_list a d)
]

del_nbr-NbrsDistinct :
    (os : List TrInfo) (a : Addr) → NbrsDistinct os → NbrsDistinct (tr_info_list_del_nbr os a)
unfolding tr_info_list_del_nbr
del_nbr-NbrsDistinct [] a d = tt
del_nbr-NbrsDistinct (o ∷ os) a d = (drop_nbr-Distinct a o d.0, del_nbr-NbrsDistinct os a d.1)

del_nbr-Arranged :
    (near : Addr → Bool) (a : Addr) (is os : List TrInfo)
    → NbrsDistinct os
    → Arranged near is os
    → Arranged (λ b. near b || same_addr a b) is (tr_info_list_del_nbr os a)
unfolding tr_info_list_del_nbr
del_nbr-Arranged near a [] [] d h = tt
del_nbr-Arranged near a [] (o ∷ os) d h = absurd h
del_nbr-Arranged near a (i ∷ is) [] d h = absurd h
del_nbr-Arranged near a (i ∷ is) (o ∷ os) d h = (
  drop_nbr-node a o ∙ h.0,
  λ b.
      let own : same_addr b o.addr ≡ same_addr b i.addr =
        ap (λ (n : TrNode). same_addr b n.addr) h.0 in
      ground (arith, drop_nbr_finds a b o d.0, h.1 b, own),
  del_nbr-Arranged near a is os d.1 h.2,
)

arrange_from-Arranged :
    (thre : ℕ) (rest is os : List TrInfo) (near : Addr → Bool)
    → NbrsDistinct os
    → Arranged near is os
    → Arranged (λ b. near b || near_source thre rest b) is (arrange_from thre rest os)
unfolding arrange_from
arrange_from-Arranged thre [] is os near d h = Arranged-ext near _ is os (λ b. ground arith) h
arrange_from-Arranged thre (r ∷ rest) is os near d h =
    elim (Bool-cases (leb thre (get_or r.rcv_num 0 0))) [
      | inl e ↦ rw e (
          Arranged-ext (λ b. (near b || same_addr r.addr b) || near_source thre rest b) _ is _
            (λ b. ground arith)
            (arrange_from-Arranged thre rest is _ _ (del_nbr-NbrsDistinct os r.addr d)
              (del_nbr-Arranged near r.addr is os d h)))
      | inr e ↦ rw e (arrange_from-Arranged thre rest is os near d h)
    ]

-- If no list of neighbours has an address twice, the arrangement keeps the nodes and their order, and
-- from each node's neighbours removes exactly those that are in the list of nodes with a first counter
-- that reaches the threshold and are not the node itself.
pub tr_info_list_arrangement-Arranged :
    (thre : ℕ) (is : List TrInfo)
    → NbrsDistinct is
    → Arranged (near_source thre is) is (tr_info_list_arrangement thre is)
unfolding tr_info_list_arrangement
tr_info_list_arrangement-Arranged thre is d =
    arrange_from-Arranged thre is is is (λ b. false) d (Arranged-start is)
