-- ===== src/Protocol/Payloads/Samples.antt =====
-- Values that a service could send, for the tests of packages/typescript/src.
use ja3proxy.Base.{ℕ, String, ◌≡◌, refl, true, ◌∙◌, List, [], ◌∷◌}
use ja3proxy.Wire.Value.{
  Value, boolean, number, string, array, object, whole, Elements, no_elements, element, Entries,
  no_entries, entry, lookup,
}
use ja3proxy.Wire.Schema.{conforms}
use ja3proxy.Wire.Contracts
use ja3proxy.Wire.Validators.{capabilities, context_info}
use ja3proxy.Wire.Validators.Conformance.{validate_wire-conforms}
use ja3proxy.Protocol.Payloads.Patterns.{
  opaque, opaque_text, profile_name, one_line, header_pairs, positive, nonnegative_integer, every,
}
use ja3proxy.Protocol.Payloads.{valid_context_info}
use ja3proxy.Protocol.Payloads.Capabilities.{valid_capabilities}

abbrev pub texts : List String → Elements
texts [] = no_elements
texts (s ∷ ss) = element (string s) (texts ss)

abbrev pub same_numbers : ℕ → List String → Entries
same_numbers n [] = no_entries
same_numbers n (s ∷ ss) = entry s (number (whole n)) (same_numbers n ss)

abbrev pub sample_capabilities : Value
sample_capabilities = object (
    entry "service" (string "ja3proxy") (
      entry "build" (string "1") (
        entry "profiles" (array (texts ("chrome_133" ∷ []))) (
          entry "headerDescriptors" (array no_elements) (
            entry "profileAliases" (object (entry "chrome" (string "chrome_133") no_entries)) (
              entry "framing"
                (object (
                  entry "contentType" (string "application/vnd.ja3proxy") (
                    same_numbers 65536
                      ("maxMetadataBytes" ∷ "maxDataBytes" ∷ "maxUploadFrames" ∷ []))))
                (entry "limits"
                  (object (
                    same_numbers 1000 (
                      "maxRequestBytes" ∷ "maxResponseBytes" ∷ "maxTimeoutMs" ∷ "maxConcurrent"
                      ∷ "maxConcurrentPerPartition" ∷ "maxQueued" ∷ "maxQueuedPerPartition"
                      ∷ "maxEnvelopes" ∷ "envelopeTimeoutMs" ∷ "maxControlBytes" ∷ "maxHeaderBytes"
                      ∷ "maxHeaders" ∷ "maxContexts" ∷ "maxContextsPerPartition"
                      ∷ "contextIdleTtlMs" ∷ "contextMaxIdleTtlMs" ∷ "contextMaxAgeMs"
                      ∷ "maxCookies" ∷ "maxCookieBytes" ∷ "maxCookieSize" ∷ "maxAllowedOrigins"
                      ∷ "registryCapacity" ∷ "registryTtlMs" ∷ [])))
                  (entry "modes"
                    (object (
                      entry "egress" (array (texts ("direct" ∷ "http" ∷ []))) (
                        entry "cookies" (array (texts ("external" ∷ "managed" ∷ []))) (
                          entry "stream" (array (texts ("upload" ∷ "download" ∷ []))) (
                            entry "cancel" (array (texts ("request" ∷ "stream-drop" ∷ [])))
                              no_entries)))))
                    no_entries))))))))

sample_conforms : conforms Contracts.capabilities sample_capabilities ≡ true
unfolding conforms lookup
sample_conforms = refl

pub sample_valid : valid_capabilities sample_capabilities ≡ true
unfolding valid_capabilities lookup positive nonnegative_integer header_pairs every profile_name
sample_valid = rw (validate_wire-conforms capabilities sample_capabilities ∙ sample_conforms) refl

abbrev pub sample_context : String → ℕ → Value
sample_context id revision = object (
    entry "contextId" (string id) (
      entry "partition" (string "p") (
        entry "expiresAtMs" (number (whole 5)) (
          entry "revision" (number (whole revision)) (
            entry "cookieMode" (string "managed") (
              entry "identity"
                (object (
                  entry "tlsProfile" (string "chrome_133")
                    (entry "emulateHeaders" (boolean true) no_entries)))
                no_entries))))))

context_conforms :
    (conforms Contracts.context_info (sample_context "c1" 3) ≡ true)
    × (conforms Contracts.context_info (sample_context "c2" 0) ≡ true)
unfolding conforms lookup
context_conforms = (refl, refl)

pub sample_contexts :
    (valid_context_info (sample_context "c1" 3) ≡ true)
    × (valid_context_info (sample_context "c2" 0) ≡ true)
unfolding valid_context_info lookup opaque opaque_text profile_name one_line
sample_contexts = (
  rw (validate_wire-conforms context_info (sample_context "c1" 3) ∙ context_conforms.0) refl,
  rw (validate_wire-conforms context_info (sample_context "c2" 0) ∙ context_conforms.1) refl,
)
