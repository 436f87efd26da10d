-- ===== src/Command.antt =====
-- extensions/workflows/command/command-parser.ts, the grammar of the `/workflows` commands.
--
-- `JSON.parse` of a whole value is an argument, since the parser only passes on what it gives; a quoted
-- token is read by `scan`, which is the pattern of the code and `JSON.parse` of what it matches in one.
-- The loops over a text run on fuel, one round more than its length.
pub mod Strings
pub mod Tokens
pub mod Options
pub mod Run
pub mod Continue
mod Quoting
pub mod Reading
pub mod Rereading
mod Lengths
mod Fuel
pub mod Usage
