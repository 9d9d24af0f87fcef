-- ===== src/Configdoc/PeerText.antt =====
-- The lines of a new peer (AddPeer of internal/agent/configdoc/document.go).
use mathlib.Core.List.{append_assoc}
use wiregate.Prelude.{
  ◌≡◌, ◌++◌, ◌∙◌, [], ◌∷◌, inl, inr, refl, subst, sym, ap, List, Bool, true, false, not, ◌==◌, ℕ,
  append-nil, ◌+◌, suc, if_both, arith, ltb, ◌/◌, ◌%◌, zero, ◌&&◌,
}
use wiregate.Stdlib.Bytes.{Bytes, same, codes, join, trim_space, format_uint, decimal_from}
use wiregate.Configdoc.Nodes.{split_lines}
use wiregate.Configdoc.Edit.{optional_line, peer_lines, NewPeer}
use wiregate.Configdoc.Apart.{IsBlank, both_true}
use wiregate.Configdoc.Lines.{NoFeed, NoFeed-append, split_lines-line}

-- A text and a line end are one line.
ended_line :
    (x newline rest : Bytes)
    → IsBlank newline
    → NoFeed x
    → split_lines (x ++ (newline ++ rest)) ≡ (x ++ newline) ∷ split_lines rest
unfolding IsBlank NoFeed
ended_line x newline rest (inl e) h =
    subst (λ n. split_lines (x ++ (n ++ rest)) ≡ (x ++ n) ∷ split_lines rest) (sym e)
      (split_lines-line x rest h)
ended_line x newline rest (inr e) h =
    subst (λ n. split_lines (x ++ (n ++ rest)) ≡ (x ++ n) ∷ split_lines rest) (sym e)
      (ap split_lines (sym (append_assoc x (13 ∷ []) (10 ∷ rest)))
        ∙ split_lines-line (x ++ (13 ∷ [])) rest (NoFeed-append x (13 ∷ []) h (refl, tt))
        ∙ ap (λ a. a ∷ split_lines rest) (append_assoc x (13 ∷ []) (10 ∷ [])))

-- The test of `NoFeed`.
unfoldable pub is_feedless : Bytes → Bool
is_feedless [] = true
is_feedless (b ∷ s) = not (b == 10) && is_feedless s

not-true : (b : Bool) → not b ≡ true → b ≡ false
not-true b h = ground arith

pub feedless : (s : Bytes) → is_feedless s ≡ true → NoFeed s
unfolding is_feedless NoFeed
feedless [] h = tt
feedless (b ∷ s) h =
    let (here, later) = both_true (not (b == 10)) (is_feedless s) h in
    (not-true (b == 10) here, feedless s later)

-- A name and its value as one line of the file.
unfoldable pub assignment : Bytes → Bytes → Bytes → Bytes
assignment name value newline = (name ++ (codes " = " ++ value)) ++ newline

-- The lines that are there under a condition.
unfoldable pub lines_if : Bool → Bytes → List Bytes
lines_if true line = line ∷ []
lines_if false _ = []

optional_line-lines :
    (present : Bool) (name value newline rest : Bytes)
    → IsBlank newline
    → NoFeed name
    → NoFeed value
    → split_lines (optional_line present name value newline ++ rest)
      ≡ lines_if present (assignment name value newline) ++ split_lines rest
unfolding optional_line lines_if assignment NoFeed
optional_line-lines false name value newline rest blank a b = refl
optional_line-lines true name value newline rest blank a b =
    ap split_lines (
      append_assoc name (codes " = " ++ (value ++ newline)) rest
      ∙ ap (λ x. name ++ x) (append_assoc (codes " = ") (value ++ newline) rest)
      ∙ ap (λ x. name ++ (codes " = " ++ x)) (append_assoc value newline rest)
      ∙ ap (λ x. name ++ x) (sym (append_assoc (codes " = ") value (newline ++ rest)))
      ∙ sym (append_assoc name (codes " = " ++ value) (newline ++ rest)))
    ∙ ended_line (name ++ (codes " = " ++ value)) newline rest blank (
        NoFeed-append name (codes " = " ++ value) a
          (NoFeed-append (codes " = ") value (refl, (refl, (refl, tt))) b))

-- The lines of a peer, in the order of the file: a header, its keys, its prefixes, its host and its
-- interval. A preshared key, a host and an interval are optional.
unfoldable pub entries : NewPeer → List Bytes → Bytes → List Bytes
entries peer allowed newline =
    (codes "[Peer]" ++ newline)
    ∷ assignment (codes "PublicKey") peer.peer_key newline
    ∷ (lines_if (not (same peer.secret [])) (assignment (codes "PresharedKey") peer.secret newline)
        ++ (assignment (codes "AllowedIPs") (join (codes ", ") allowed) newline
            ∷ (lines_if (not (same peer.host []))
                  (assignment (codes "Endpoint") (trim_space peer.host) newline)
                ++ lines_if (not (peer.keepalive == 0)) (
                    assignment (codes "PersistentKeepalive") (format_uint peer.keepalive)
                      newline))))

digit_no_feed : (d : ℕ) → (48 + d == 10) ≡ false
digit_no_feed d = ground arith

decimal_from-NoFeed : (fuel n : ℕ) (acc : Bytes) → NoFeed acc → NoFeed (decimal_from fuel n acc)
unfolding decimal_from NoFeed
decimal_from-NoFeed zero n acc h = h
decimal_from-NoFeed (suc fuel) n acc h =
    if_both NoFeed (ltb n 10) ((48 + n) ∷ acc) (decimal_from fuel (n / 10) ((48 + n % 10) ∷ acc))
      (digit_no_feed n, h)
      (decimal_from-NoFeed fuel (n / 10) ((48 + n % 10) ∷ acc) (digit_no_feed (n % 10), h))

format_uint-NoFeed : (n : ℕ) → NoFeed (format_uint n)
unfolding format_uint NoFeed
format_uint-NoFeed n = decimal_from-NoFeed (suc n) n [] tt

last_line :
    (present : Bool) (name value newline : Bytes)
    → IsBlank newline
    → NoFeed name
    → NoFeed value
    → split_lines (optional_line present name value newline)
      ≡ lines_if present (assignment name value newline)
unfolding split_lines
last_line present name value newline blank a b =
    ap split_lines (sym (append-nil (optional_line present name value newline)))
    ∙ optional_line-lines present name value newline [] blank a b
    ∙ append-nil (lines_if present (assignment name value newline))

pub peer_lines-entries :
    (peer : NewPeer) (allowed : List Bytes) (newline : Bytes)
    → IsBlank newline
    → NoFeed peer.peer_key
    → NoFeed peer.secret
    → NoFeed (join (codes ", ") allowed)
    → NoFeed (trim_space peer.host)
    → split_lines (peer_lines peer allowed newline) ≡ entries peer allowed newline
unfolding peer_lines entries optional_line lines_if is_feedless
peer_lines-entries peer allowed newline blank key secret prefixes host =
    let secret_line =
      lines_if (not (same peer.secret []))
        (assignment (codes "PresharedKey") peer.secret newline) in
    let host_line =
      lines_if (not (same peer.host []))
        (assignment (codes "Endpoint") (trim_space peer.host) newline) in
    let interval =
      optional_line (not (peer.keepalive == 0)) (codes "PersistentKeepalive")
        (format_uint peer.keepalive) newline in
    let hosts =
      optional_line (not (same peer.host [])) (codes "Endpoint") (trim_space peer.host) newline
      ++ interval in
    let alloweds =
      optional_line true (codes "AllowedIPs") (join (codes ", ") allowed) newline ++ hosts in
    let secrets =
      optional_line (not (same peer.secret [])) (codes "PresharedKey") peer.secret newline
      ++ alloweds in
    ended_line (codes "[Peer]") newline
      (optional_line true (codes "PublicKey") peer.peer_key newline ++ secrets) blank
      (feedless (codes "[Peer]") refl)
    ∙ ap (λ x. (codes "[Peer]" ++ newline) ∷ x)
        (optional_line-lines true (codes "PublicKey") peer.peer_key newline secrets blank
            (feedless (codes "PublicKey") refl) key
          ∙ ap (λ x. assignment (codes "PublicKey") peer.peer_key newline ∷ x)
              (optional_line-lines (not (same peer.secret [])) (codes "PresharedKey") peer.secret
                  newline alloweds blank (feedless (codes "PresharedKey") refl) secret
                ∙ ap (λ x. secret_line ++ x)
                    (optional_line-lines true (codes "AllowedIPs") (join (codes ", ") allowed)
                        newline hosts blank (feedless (codes "AllowedIPs") refl) prefixes
                      ∙ ap
                          (λ x.
                            assignment (codes "AllowedIPs") (join (codes ", ") allowed) newline ∷ x)
                          (optional_line-lines (not (same peer.host [])) (codes "Endpoint")
                              (trim_space peer.host) newline interval blank
                              (feedless (codes "Endpoint") refl) host
                            ∙ ap (λ x. host_line ++ x)
                                (last_line (not (peer.keepalive == 0)) (codes "PersistentKeepalive")
                                  (format_uint peer.keepalive) newline blank
                                  (feedless (codes "PersistentKeepalive") refl)
                                  (format_uint-NoFeed peer.keepalive))))))
