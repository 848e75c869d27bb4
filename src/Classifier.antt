-- ===== src/Classifier.antt =====
-- How a provider's failure is classified: durallm/classifier.py and the data of durallm/models.py.
pub mod Model
pub mod Phrases
pub mod Regex
pub mod Numbers
pub mod Rules
pub mod Table
pub mod Status
