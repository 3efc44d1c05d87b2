-- ===== src/Browser/Sdp.antt =====
-- drone-fleet-manager/public/js/video/video-webrtc.js: isPrivateIp and sanitizeWhepAnswerSdp, which
-- takes the private addresses out of the server's answer. The texts are ASCII.
pub mod Lines
mod Tests
use Prim.Native.Char.{Char, code}
use Prim.Native.String.{[], ◌∷◌, count}
use vdt_provisioning_service.Prelude.{
  ℕ, zero, suc, ◌+◌, String, Bool, true, false, not, Option, none, some, List, ◌==◌, ◌&&◌, ◌||◌,
  eqb, leb, ltb, keep, if◌then◌else◌,
}
use vdt_provisioning_service.Prelude.Text.{
  is_space, digit, every, prepend, split, starts_with, substring,
}

any_of : (String → Bool) → List String → Bool
any_of p List.[] = false
any_of p (List.◌∷◌ s ss) = p s || any_of p ss

-- `172\.(1[6-9]|2[0-9]|3[0-1])\.`
abbrev block_172 : List String
block_172 =
    split b' '
      "172.16. 172.17. 172.18. 172.19. 172.20. 172.21. 172.22. 172.23. 172.24. 172.25. 172.26. 172.27. 172.28. 172.29. 172.30. 172.31."

unfoldable pub is_private_ip : String → Bool
unfolding any_of
is_private_ip ip =
    any_of (λ p. starts_with p ip) (split b' ' "10. 192.168. 127. 169.254.")
    || any_of (λ p. starts_with p ip) block_172

-- `sdp.split(/\r?\n/)`
unfoldable pub split_lines : String → List String
split_lines [] = List.◌∷◌ "" List.[]
split_lines (c ∷ s) =
    let rest = split_lines s in
    if eqb (code c) 10
    then List.◌∷◌ "" rest
    else if eqb (code c) 13 && starts_with "\n" s
    then rest
    else prepend c rest

-- `s + t`
abbrev pub concat : String → String → String
concat [] t = t
concat (c ∷ s) t = c ∷ concat s t

-- `lines.join('\r\n')`
unfoldable pub join_lines : List String → String
join_lines List.[] = ""
join_lines (List.◌∷◌ l List.[]) = l
join_lines (List.◌∷◌ l (List.◌∷◌ k ls)) = concat l (concat "\r\n" (join_lines (List.◌∷◌ k ls)))

-- The words between white space; a text that begins with white space has an empty first one.
abbrev next_word : List String → List String
next_word List.[] = List.◌∷◌ "" List.[]
next_word (List.◌∷◌ w ws) = if w == "" then List.◌∷◌ w ws else List.◌∷◌ "" (List.◌∷◌ w ws)

unfoldable pub words : String → List String
unfolding is_space
words [] = List.◌∷◌ "" List.[]
words (c ∷ s) = let rest = words s in if is_space (code c) then next_word rest else prepend c rest

abbrev lower : ℕ → ℕ
lower c = if leb b'A' c && leb c b'Z' then c + 32 else c

-- `s.startsWith(t)`, where the case of letters does not count
starts_with_any_case : String → String → Bool
starts_with_any_case [] s = true
starts_with_any_case (c ∷ t) [] = false
starts_with_any_case (c ∷ t) (d ∷ s) =
    eqb (lower (code c)) (lower (code d)) && starts_with_any_case t s

abbrev is_digits : String → Bool
unfolding digit
is_digits s = not (s == "") && every digit s

abbrev begins_with_digit : String → Bool
unfolding digit
begins_with_digit [] = false
begins_with_digit (c ∷ s) = digit (code c)

is_protocol : String → Bool
unfolding starts_with_any_case
is_protocol s = eqb (count s) 3 && (starts_with_any_case "udp" s || starts_with_any_case "tcp" s)

abbrev host_in : List String → Option String
unfolding is_protocol digit
host_in (List.◌∷◌ a (List.◌∷◌ b (List.◌∷◌ c (List.◌∷◌ d (List.◌∷◌ host (List.◌∷◌ port rest)))))) =
    if (not (a == "") && is_digits b)
      && ((is_protocol c && is_digits d) && (not (host == "") && begins_with_digit port))
    then some host
    else none
host_in _ = none

-- `/^a=candidate:[^\s]+\s+\d+\s+(?:udp|tcp)\s+\d+\s+([^\s]+)\s+\d+/i`, and what its group is
unfoldable pub candidate_host : String → Option String
unfolding starts_with_any_case words is_protocol digit substring
candidate_host line =
    if starts_with_any_case "a=candidate:" line then host_in (words (substring 12 line)) else none

abbrev public_of : Option String → Option String → Option String
public_of none later = later
public_of (some host) later = if is_private_ip host then later else some host

unfoldable pub public_host : List String → Option String
public_host List.[] = none
public_host (List.◌∷◌ l ls) = public_of (candidate_host l) (public_host ls)

abbrev four : List String → Bool
unfolding digit
four (List.◌∷◌ a (List.◌∷◌ b (List.◌∷◌ c (List.◌∷◌ d List.[])))) =
    (is_digits a && is_digits b) && (is_digits c && is_digits d)
four _ = false

-- `/^\d+\.\d+\.\d+\.\d+$/`
unfoldable pub is_dotted : String → Bool
unfolding digit split
is_dotted s = four (split b'.' s)

abbrev in_address : ℕ → Bool
unfolding digit
in_address c = digit c || eqb c b'.'

abbrev begins_address : String → Bool
unfolding digit
begins_address [] = false
begins_address (c ∷ s) = in_address (code c)

-- A match of `/c=IN IP4 [0-9.]+/` begins here.
abbrev is_connection : String → Bool
unfolding digit
is_connection s = starts_with "c=IN IP4 " s && begins_address (substring 9 s)

-- `sdp.replace(/c=IN IP4 [0-9.]+/g, t)`: the number is how much of the match's fixed part is still to
-- be left out, the test says that its address is.
replaced : String → ℕ → Bool → String → String
unfolding digit
replaced t n inside [] = ""
replaced t (suc n) inside (c ∷ s) = replaced t n inside s
replaced t zero inside (c ∷ s) =
    let copied = replaced t zero false s in
    let matched = replaced t 8 true s in
    let skipped = replaced t zero true s in
    if inside && in_address (code c)
    then skipped
    else if is_connection (c ∷ s)
    then concat t matched
    else c ∷ copied

abbrev rewrite : Option String → String → String
unfolding replaced is_dotted
rewrite none sdp = sdp
rewrite (some host) sdp =
    if is_dotted host then replaced (concat "c=IN IP4 " host) 0 false sdp else sdp

-- The answer with the public address in its `c=` lines.
unfoldable pub with_public_host : String → String
unfolding replaced is_dotted digit
with_public_host sdp = rewrite (public_host (split_lines sdp)) sdp

abbrev pub is_private_host : Option String → Bool
is_private_host none = false
is_private_host (some host) = is_private_ip host

-- What the last filter keeps.
unfoldable pub is_kept : String → Bool
is_kept line = not (starts_with "a=candidate:" line && is_private_host (candidate_host line))

unfoldable pub sanitize_whep_answer_sdp : String → String
sanitize_whep_answer_sdp sdp =
    if sdp == "" then sdp else join_lines (keep is_kept (split_lines (with_public_host sdp)))
