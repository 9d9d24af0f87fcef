-- ===== src/Configdoc/Appends.antt =====
-- Adding and restoring a peer append to the document (AddPeer and RestorePeerBlock of
-- internal/agent/configdoc/document.go).
use wiregate.Prelude.{
  ◌≡◌, success, failure, bind-success, ◌++◌, arith, reject, not, false, [], Bool-cases, inl, inr,
  sym, refl, subst, List, ℕ, ◌==◌, Fallible, ◌≢◌, length, ◌&&◌,
}
use wiregate.Stdlib.Bytes.{Bytes, same, codes, has_suffix, join, trim_space}
use wiregate.Stdlib.Same.{same-eq}
use wiregate.Configdoc.Nodes.{detect_newline, split_lines}
use wiregate.Configdoc.Apart.{SetApart, separator-SetApart, newline-IsBlank}
use wiregate.Configdoc.Lines.{NoFeed}
use wiregate.Configdoc.PeerText.{entries, peer_lines-entries}
use wiregate.Configdoc.Document.{
  Document, parse, document, adoption_safe, ConfigError, check_warnings,
}
use wiregate.Configdoc.Edit.{
  restore_peer_block, separator, require_absent, is_peer_block, unsafe_block, add_peer, NewPeer,
  canonical_prefixes, peer_lines,
}
use wiregate.Stdlib.Base64.{valid_key}

-- What parsing returns is the document of the text.
parse-raw : (input : Bytes) (d : Document) → parse input ≡ success d → d.raw ≡ input
unfolding parse document
parse-raw input d h = ground arith

not_safe : {e : ConfigError} → failure e ≡ success tt → ⊥
not_safe h = cc

empty_not_safe : adoption_safe (document []) ≡ success tt → ⊥
unfolding adoption_safe document
empty_not_safe h = cc

-- A document that is safe to adopt has a text.
safe_has_text :
    (input : Bytes) → adoption_safe (document input) ≡ success tt → same input [] ≡ false
safe_has_text input h = elim (Bool-cases (same input [])) [
  | inr e ↦ e
  | inl e ↦
      absurd (
        empty_not_safe
          (subst (λ s. adoption_safe (document s) ≡ success tt) (same-eq input [] e) h))
]

document-raw : (input : Bytes) → (document input).raw ≡ input
unfolding document
document-raw input = refl

appended :
    (input added : Bytes) (e : Document)
    → has_suffix input (codes "\r") ≡ false
    → adoption_safe (document input) ≡ success tt
    → e.raw ≡ input ++ (separator input (detect_newline input) ++ added)
    → SetApart input added e.raw
appended input added e whole safe same_raw = subst (SetApart input added) (sym same_raw) (
    separator-SetApart input (detect_newline input) added (safe_has_text input safe) whole
      (newline-IsBlank input))

-- A success of RestorePeerBlock is on a safe document without the peer. The new text is the old one,
-- line ends only, and the archived block, byte for byte; a blank line parts the archived lines from
-- the old ones, and none of them runs into another. The old text does not end with a lone carriage
-- return, which is no line end of the parser.
pub restore_peer_block-SetApart :
    (input key archived : Bytes) (e : Document)
    → has_suffix input (codes "\r") ≡ false
    → restore_peer_block (document input) key archived ≡ success e
    → (adoption_safe (document input) ≡ success tt)
      × (require_absent (document input) key ≡ success tt)
      × SetApart input archived e.raw
unfolding restore_peer_block document
restore_peer_block-SetApart input key archived e whole h =
    let d = document input in
    let (_, safe, h1) = bind-success (adoption_safe d) _ e h in
    let (_, absent, h2) = bind-success (require_absent d key) _ e h1 in
    let (block, _, h3) = bind-success (parse archived) _ e h2 in
    let (_, _, h4) =
      bind-success (reject (not (is_peer_block block key)) ConfigError.not_the_peer_block) _ e h3 in
    let (_, _, h5) = bind-success (check_warnings unsafe_block block.analysis.warnings) _ e h4 in
    (safe, absent, appended input archived e whole safe (parse-raw _ e h5))

accepted_prefixes :
    {allowed listed : List Bytes} (r : Fallible ConfigError (List Bytes))
    → r ≡ success allowed
    → r ≡ success listed
    → allowed ≡ listed
accepted_prefixes r g h = cc

some_prefix : (n : ℕ) (c : ConfigError) (u : Unit {0}) → reject (n == 0) c ≡ success u → n ≢ 0
some_prefix n c u h e = ground arith

-- A success of AddPeer is on a safe document without the peer and with at least one prefix. The new
-- text is the old one, line ends only, and the text of the peer, whose lines are the header, the
-- key, the preshared key if there is one, the canonical prefixes, the host and the interval if there
-- are such, each on a line of its own by the document's line end. A blank line parts them from the
-- old ones. The old text does not end with a lone carriage return, and the values that are written
-- have no line feed.
pub add_peer-SetApart :
    (input : Bytes) (peer : NewPeer) (allowed : List Bytes) (e : Document)
    → has_suffix input (codes "\r") ≡ false
    → canonical_prefixes peer.prefixes ≡ success allowed
    → NoFeed peer.peer_key
    → NoFeed peer.secret
    → NoFeed (join (codes ", ") allowed)
    → NoFeed (trim_space peer.host)
    → add_peer (document input) peer ≡ success e
    → (adoption_safe (document input) ≡ success tt)
      × (require_absent (document input) peer.peer_key ≡ success tt)
      × (length allowed ≢ 0)
      × ((added : Bytes) × SetApart input added e.raw
          × (split_lines added ≡ entries peer allowed (detect_newline input)))
unfolding add_peer document
add_peer-SetApart input peer allowed e whole canonical key secret prefixes host h =
    let d = document input in
    let (_, safe, h1) = bind-success (adoption_safe d) _ e h in
    let (_, _, h2) =
      bind-success (reject (not (valid_key peer.peer_key)) ConfigError.invalid_public_key) _ e h1 in
    let (_, absent, h3) = bind-success (require_absent d peer.peer_key) _ e h2 in
    let (listed, listing, h4) = bind-success (canonical_prefixes peer.prefixes) _ e h3 in
    let (_, some_listed, h5) =
      bind-success (reject (length listed == 0) ConfigError.no_prefix) _ e h4 in
    let (_, _, h6) =
      bind-success
        (reject (not (same peer.secret []) && not (valid_key peer.secret))
          ConfigError.invalid_preshared_key)
        _ e h5 in
    let newline = detect_newline input in
    let same_list = accepted_prefixes _ listing canonical in
    (
      safe,
      absent,
      subst (λ l. length l ≢ 0) same_list (some_prefix _ _ _ some_listed),
      (
        peer_lines peer allowed newline,
        appended input (peer_lines peer allowed newline) e whole safe (
            subst (λ l. e.raw ≡ input ++ (separator input newline ++ peer_lines peer l newline))
              same_list (parse-raw _ e h6)),
        peer_lines-entries peer allowed newline (newline-IsBlank input) key secret prefixes host,
      ),
    )
