-- ===== src/Value.antt =====
-- Python's dynamic values as src/aiotruenas/domain/_normalize.py handles them: what `json.loads`
-- returns, and the datetimes that the normalization stores. A dict is an association list in
-- insertion order. Its keys are taken up to Python's equality of hashable values, so that 1, 1.0
-- and True are one key, as they are for a Python dict.
mod Data
mod Equality
pub mod Dict
pub mod Text
pub use Data.*
unfoldable pub use Equality.*
