-- ===== src/Daemon/Ownership.antt =====
-- Who receives for a channel: the last connection that asked for it.
use sockpost.Common.{
  ℕ, ◌≡◌, refl, ap, ◌∙◌, true, false, List, [], ◌∷◌, Option, none, some, if◌then◌else◌, ◌==◌, arith,
  Text, text_eq, text_eq_refl, text_instance, nat_eq, Bool-cases, inl, inr,
}
use sockpost.Common.Dict.{get, put, remove, get-put, get-put_self, get-remove}
use sockpost.Daemon.State.{Daemon, Moment, Payload, connected, evicted, is_member, reply, write_all}
use sockpost.Daemon.Delivery.{receivers_of, schedule_delivery}
use sockpost.Daemon.Sessions.{
  take_over, handle_connect, leave, drop_connection, handle_disconnect, close_connection,
}

-- A write changes nothing but what was sent.
abbrev SamePeers : Daemon → Daemon → Type 0
SamePeers d d' = (d'.receivers ≡ d.receivers) × (d'.serving ≡ d.serving)

SamePeers-reply :
    (w : Moment) (conn : ℕ) (payload : Payload) (d : Daemon) → SamePeers d (reply w conn payload d)
unfolding reply
SamePeers-reply w conn payload d = ground arith

SamePeers-write_all :
    (w : Moment) (conns : List ℕ) (payload : Payload) (d : Daemon)
    → SamePeers d (write_all w conns payload d)
unfolding write_all
SamePeers-write_all w [] payload d = (refl, refl)
SamePeers-write_all w (c ∷ cs) payload d =
    let (r, s) = SamePeers-reply w c payload d in
    let (r', s') = SamePeers-write_all w cs payload (reply w c payload d) in (r' ∙ r, s' ∙ s)

module _ (w : Moment) (conn : ℕ) (channel : Text) (d : Daemon) where
  receivers-connect :
      (handle_connect w conn channel d).receivers ≡ put channel (conn ∷ []) d.receivers
  unfolding handle_connect schedule_delivery take_over
  receivers-connect =
      let told = write_all w (receivers_of channel d) (evicted channel) d in
      let (r, s) = SamePeers-write_all w (receivers_of channel d) (evicted channel) d in
      let (r', s') = SamePeers-reply w conn (connected channel) (take_over w conn channel told) in
      elim (Bool-cases (w.takes conn)) [
        | inl e ↦ rw e (r' ∙ ap (put channel (conn ∷ [])) r)
        | inr e ↦ rw e (r' ∙ ap (put channel (conn ∷ [])) r)
      ]

  serving-connect :
      (handle_connect w conn channel d).serving
      ≡ (if w.takes conn then put conn channel d.serving else d.serving)
  unfolding handle_connect schedule_delivery take_over
  serving-connect =
      let told = write_all w (receivers_of channel d) (evicted channel) d in
      let (r, s) = SamePeers-write_all w (receivers_of channel d) (evicted channel) d in
      let (r', s') = SamePeers-reply w conn (connected channel) (take_over w conn channel told) in
      elim (Bool-cases (w.takes conn)) [
        | inl e ↦ rw e (ap (put conn channel) (s' ∙ s))
        | inr e ↦ rw e (s' ∙ s)
      ]

  -- After a connect the connection is the one receiver of its channel, whoever had it, and every other
  -- channel has the receivers that it had.
  pub receivers_of-connect :
      (k : Text)
      → receivers_of k (handle_connect w conn channel d)
        ≡ (if text_eq channel k then conn ∷ [] else receivers_of k d)
  receivers_of-connect k =
      rw (receivers-connect, get-put channel k (conn ∷ []) d.receivers) (ground arith)

drop_connection-receivers :
    (w : Moment) (channel k : Text) (others : List ℕ) (d : Daemon)
    → text_eq channel k ≡ false
    → receivers_of k (drop_connection w channel others d) ≡ receivers_of k d
unfolding drop_connection leave
drop_connection-receivers w channel k [] d e = rw (get-remove channel k d.receivers, e) refl
drop_connection-receivers w channel k (c ∷ cs) d e =
    rw (get-put channel k (c ∷ cs) d.receivers, e) refl

close-disconnect :
    (w : Moment) (conn : ℕ) (o : Option Text) (d : Daemon)
    → get conn d.serving ≡ o
    → close_connection w conn d
      ≡ handle_disconnect w conn o (record d { serving = remove conn d.serving })
unfolding close_connection
close-disconnect w conn o d q = rw q refl

-- A disconnect touches no other channel's receivers.
disconnect-other :
    (w : Moment) (conn : ℕ) (channel k : Text) (d : Daemon)
    → text_eq channel k ≡ false
    → receivers_of k (handle_disconnect w conn (some channel) d) ≡ receivers_of k d
unfolding handle_disconnect
disconnect-other w conn channel k d e =
    elim (Bool-cases (is_member conn (receivers_of channel d))) [
      | inl m ↦ rw m (drop_connection-receivers w channel k _ d e)
      | inr m ↦ rw m refl
    ]

-- A connection that was replaced leaves its channel alone.
disconnect-replaced :
    (w : Moment) (conn : ℕ) (channel : Text) (d : Daemon)
    → is_member conn (receivers_of channel d) ≡ false
    → handle_disconnect w conn (some channel) d ≡ d
unfolding handle_disconnect
disconnect-replaced w conn channel d m = rw m refl

-- A listener that served a channel and was replaced by another connection leaves the channel to its
-- successor when it closes.
pub evicted-close :
    (w w' : Moment) (old conn : ℕ) (channel : Text) (d : Daemon)
    → get old d.serving ≡ some channel
    → (old == conn) ≡ false
    → receivers_of channel (close_connection w' old (handle_connect w conn channel d)) ≡ conn ∷ []
evicted-close w w' old conn channel d q e =
    let new = handle_connect w conn channel d in
    let served : get old new.serving ≡ some channel =
      rw (serving-connect w conn channel d) (elim (Bool-cases (w.takes conn)) [
        | inl t ↦ rw (t, get-put conn old channel d.serving) (ground arith)
        | inr t ↦ rw t q
      ]) in
    let owner : receivers_of channel new ≡ conn ∷ [] =
      rw (receivers_of-connect w conn channel d channel, text_eq_refl channel) refl in
    rw
      (
        close-disconnect w' old (some channel) new served,
        disconnect-replaced w' old channel (record new { serving = remove old new.serving })
            (rw owner (ground arith)),
      )
      owner

-- A connection that connects under two different ids, the second with a reply that it takes, and
-- then closes is still the receiver of the first.
pub first_channel-close :
    (w w' w'' : Moment) (conn : ℕ) (first second : Text) (d : Daemon)
    → text_eq second first ≡ false
    → w'.takes conn ≡ true
    → receivers_of first
        (close_connection w'' conn (handle_connect w' conn second (handle_connect w conn first d)))
      ≡ conn ∷ []
first_channel-close w w' w'' conn first second d e t =
    let one = handle_connect w conn first d in
    let two = handle_connect w' conn second one in
    let served : get conn two.serving ≡ some second =
      rw (serving-connect w' conn second one, t) (get-put_self conn second one.serving) in
    ap (receivers_of first) (close-disconnect w'' conn (some second) two served)
    ∙ disconnect-other w'' conn second first (record two { serving = remove conn two.serving }) e
    ∙ rw (receivers_of-connect w' conn second one first, e)
        (rw (receivers_of-connect w conn first d first, text_eq_refl first) refl)

-- A connection that served no channel, and is lost before the reply to its connect, is the receiver
-- of the channel after it has closed.
pub lost_reply-close :
    (w w' : Moment) (conn : ℕ) (channel : Text) (d : Daemon)
    → w.takes conn ≡ false
    → get conn d.serving ≡ none
    → receivers_of channel (close_connection w' conn (handle_connect w conn channel d)) ≡ conn ∷ []
unfolding handle_disconnect
lost_reply-close w w' conn channel d t q =
    let new = handle_connect w conn channel d in
    let served : get conn new.serving ≡ none = rw (serving-connect w conn channel d, t) q in
    ap (receivers_of channel) (close-disconnect w' conn none new served)
    ∙ rw (receivers_of-connect w conn channel d channel, text_eq_refl channel) refl
