-- ===== src/Conversation/Managed.antt =====
-- The invariant of `ChannelsManager` of crates/ssh3-core/src/conversation.rs, call by call.
use ssh.Base.{
  ℕ, ◌≤◌, Option, none, some, ◌≡◌, refl, sym, ap, ◌∙◌, ◌≢◌, ◌==◌, ==_iff, insert, remove, arith,
  Bool-cases, ◌⊎◌, some-injective, none-ne-some, true≢false, lookup-insert, lookup-insert_other,
  lookup-remove, lookup-remove_other, inl, inr,
}
use ssh.Queue.Datagram.{DatagramQueue}
use ssh.Channel.State.{Channel, ChannelInfo}
use ssh.Channel.Transmit.{set_datagram_queue}
use ssh.Conversation.{Conversation, store, allocate}
use ssh.Conversation.Manager.{adopt_queue, add_channel, adopt_channel}

pub record IsManaged (v : Conversation) : Type 0 where
  -- A registered channel is in the heap, and has the number that it is registered under.
  pub known :
      (channel_id location : ℕ)
      → v.channels channel_id ≡ some location
      → (c : Channel) × (v.heap location ≡ some c) × (c.info.channel_id ≡ channel_id)
  -- Datagrams are set aside only for channels that are not registered.
  pub apart :
      (channel_id location : ℕ)
      → v.channels channel_id ≡ some location
      → v.dangling_datagram_queues channel_id ≡ none
  pub free : (location : ℕ) → v.next_location ≤ location → v.heap location ≡ none

one_or_other : (j k : ℕ) → (j ≡ k) ⊎ (j ≢ k)
one_or_other j k = elim (Bool-cases (j == k)) [
  | inl p ↦ inl ((==_iff j k).0 p)
  | inr p ↦ inr (λ e. true≢false (sym ((==_iff j k).1 e) ∙ p))
]

-- A change of a channel in the heap that keeps its number.
pub store-IsManaged :
    (location : ℕ) (c c' : Channel) (v : Conversation)
    → v.heap location ≡ some c
    → c'.info.channel_id ≡ c.info.channel_id
    → IsManaged v
    → IsManaged (store location c' v)
unfolding store
store-IsManaged location c c' v e same i = record {
  known = λ id l k.
      let (x, at, number) = i.known id l k in
      elim (one_or_other l location) [
        | inl p ↦ (
          c',
          ap (λ j. insert location c' v.heap j) p ∙ lookup-insert location c' v.heap,
          same
              ∙ ap (λ (y : Channel). y.info.channel_id)
                  (some-injective c x (sym e ∙ ap v.heap (sym p) ∙ at))
              ∙ number,
        )
        | inr p ↦ (x, lookup-insert_other location l c' v.heap p ∙ at, number)
      ];
  apart = i.apart;
  free = λ l h. elim (one_or_other l location) [
    | inl p ↦ absurd (none-ne-some c (sym (i.free l h) ∙ ap v.heap p ∙ e))
    | inr p ↦ lookup-insert_other location l c' v.heap p ∙ i.free l h
  ];
}

-- A channel of the heap is registered, and nothing is set aside for it any more.
enlisted-IsManaged :
    (location : ℕ) (c : Channel) (v : Conversation)
    → v.heap location ≡ some c
    → IsManaged v
    → IsManaged (record v {
      dangling_datagram_queues = remove c.info.channel_id v.dangling_datagram_queues;
      channels = insert c.info.channel_id location v.channels;
    })
enlisted-IsManaged location c v e i =
    let number = c.info.channel_id in
    record {
      known = λ id l k. elim (one_or_other id number) [
        | inl p ↦
            let here =
              sym (lookup-insert number location v.channels)
              ∙ ap (λ j. insert number location v.channels j) (sym p)
              ∙ k in
            (c, ap v.heap (sym (some-injective location l here)) ∙ e, sym p)
        | inr p ↦ i.known id l (sym (lookup-insert_other number id location v.channels p) ∙ k)
      ];
      apart = λ id l k. elim (one_or_other id number) [
        | inl p ↦
            ap (λ j. remove number v.dangling_datagram_queues j) p
            ∙ lookup-remove number v.dangling_datagram_queues
        | inr p ↦
            lookup-remove_other number id v.dangling_datagram_queues p
            ∙ i.apart id l (sym (lookup-insert_other number id location v.channels p) ∙ k)
      ];
      free = i.free;
    }

adopt_queue-info : (q : Option DatagramQueue) (c : Channel) → (adopt_queue q c).info ≡ c.info
unfolding set_datagram_queue
adopt_queue-info none c = refl
adopt_queue-info (some q) c = refl

pub add_channel-IsManaged :
    (location : ℕ) (c : Channel) (v : Conversation)
    → v.heap location ≡ some c
    → IsManaged v
    → IsManaged (add_channel location v)
unfolding add_channel
add_channel-IsManaged location c v e i = rw e (
    store-IsManaged location c _ _ e
      (ap (λ (n : ChannelInfo). n.channel_id)
        (adopt_queue-info (v.dangling_datagram_queues c.info.channel_id) c))
      (enlisted-IsManaged location c v e i))

pub allocate-IsManaged : (c : Channel) (v : Conversation) → IsManaged v → IsManaged (allocate c v).1
unfolding allocate
allocate-IsManaged c v i = record {
  known = λ id l k.
      let (x, at, number) = i.known id l k in
      elim (one_or_other l v.next_location) [
        | inl p ↦ absurd (none-ne-some x (sym (i.free l (omega arith)) ∙ at))
        | inr p ↦ (x, lookup-insert_other v.next_location l c v.heap p ∙ at, number)
      ];
  apart = i.apart;
  free = λ l h.
      lookup-insert_other v.next_location l c v.heap (λ p. absurd (omega arith))
      ∙ i.free l (omega arith);
}

pub adopt_channel-IsManaged :
    (c : Channel) (v : Conversation) → IsManaged v → IsManaged (adopt_channel c v).1
unfolding adopt_channel allocate
adopt_channel-IsManaged c v i =
    add_channel-IsManaged v.next_location c (allocate c v).1
      (lookup-insert v.next_location c v.heap) (allocate-IsManaged c v i)
