-- ===== src/Lexer.antt =====
-- internal/lexer/lexer.go: the lexer, over the tokens that the scanner delivers.
-- `Token` has the token type, text and position that the scanner leaves in the lexer; the scanner
-- itself (a modified copy of Go's text/scanner) is not modelled.
-- `Consume` is the lexer's loop over the raw tokens, and shows that skipping the commas there is
-- the same as a stream with no commas, read by its tail. `Parser` has the lexer's other methods
-- over that stream.
pub mod Token
pub mod Consume
pub mod Parser
pub mod Laws
pub mod Loop
