-- ===== src/Tests/TopicStores.antt =====
-- The JSON store of the topics, run on small files.
use network_broker.Prelude.{
  ◌≡◌, refl, codes, true, some, [], ◌∷◌, ◌⊎◌, false, inl, inr, arith, text_eq,
}
use network_broker.Prelude.Assoc.{find, put}
use network_broker.Json.{File, member}
use network_broker.JsonTopics.{position, save_topic, create_topic}
use network_broker.JsonTopics.Refinement.{Represents, Stores}
use network_broker.JsonTopics.Changes.{create_topic-Stores}
use network_broker.Prelude.IdSet.{contains}
use network_broker.Topics
use network_broker.Topics.{TopicManager}
use network_broker.Topics.Subscriptions.{subscribed}
use network_broker.Topics.Store.{InSync, subscribe_out_of_sync}
use network_broker.Repository.Refinement.{TopicRefinement}
use network_broker.Application.{Store, topic_files, settle}
use network_broker.Application.Files.{IsLost, Holds, topic_files-TopicRefinement}
use network_broker.Table
use network_broker.Table.{TopicTable}
use network_broker.Tests.{news}
use network_broker.Tests.Documents.{documents, documents-JsonLaws, documents-ArrayLaws}
use network_broker.Tests.Values.{elements, empty, lookup, set, append, erase}
use network_broker.Tests.Values.Printing.{parse, print, take}

abbrev pub empty_file : File
empty_file = record { content = some (codes "{}"); is_writable = true }

abbrev pub empty_table : TopicTable
empty_table = record { topics = []; writable = true }

pub empty-Represents :
    Represents documents documents-JsonLaws documents-ArrayLaws empty_file empty_table
unfolding parse member lookup find
empty-Represents = record {
  text = codes "{}";
  value = empty;
  content = refl;
  parsed = refl;
  object = refl;
  topics = λ topic. tt;
  is_writable = refl;
}

abbrev with_news : File
with_news = (create_topic documents news 10001 empty_file).1

abbrev table_news : TopicTable
table_news = (Table.create_topic news 10001 empty_table).1

create_topic-Stores_example :
    Stores documents documents-JsonLaws documents-ArrayLaws
      (create_topic documents news 10001 empty_file)
      (Table.create_topic news 10001 empty_table)
create_topic-Stores_example =
    create_topic-Stores documents documents-JsonLaws documents-ArrayLaws news 10001 empty_file
      empty_table (ground arith) empty-Represents

news_created : (create_topic documents news 10001 empty_file).0 ≡ some true
unfolding create_topic parse lookup set append erase
news_created = refl

with_news-Represents :
    Represents documents documents-JsonLaws documents-ArrayLaws with_news table_news
with_news-Represents = elim create_topic-Stores_example [
  | inl (e, r) ↦ r
  | inr (e, lost) ↦ absurd (ground (arith, e, news_created))
]

-- The file of one topic where it cannot be written.
abbrev locked : Store
locked = record { file = record with_news { is_writable = false }; threw = false }

abbrev locked_table : TopicTable
locked_table = record table_news { writable = false }

locked-Represents :
    Represents documents documents-JsonLaws documents-ArrayLaws locked.file locked_table
locked-Represents =
    let r = with_news-Represents in
    record {
      text = r.text;
      value = r.value;
      content = r.content;
      parsed = r.parsed;
      object = r.object;
      topics = r.topics;
      is_writable = refl;
    }

abbrev over_locked : TopicManager Store
over_locked = record { topics = (news, 10001 ∷ []) ∷ []; db = locked }

abbrev files_refine : TopicRefinement (topic_files documents) Table.topic_table
files_refine = topic_files-TopicRefinement documents documents-JsonLaws documents-ArrayLaws

subscribe_out_of_sync_example :
    let m' = (Topics.subscribe (topic_files documents) 10002 news over_locked).1 in
    (subscribed news 10002 m'.topics ≡ true)
    × (IsLost m'.db
        ⊎ (Holds (Represents documents documents-JsonLaws documents-ArrayLaws) m'.db locked_table
            × (subscribed news 10002 locked_table.topics ≡ false)
            × ¬ InSync m'.topics locked_table))
unfolding find put contains subscribed Topics.subscribe save_topic create_topic Table.create_topic
    parse lookup set append erase settle print take position elements
subscribe_out_of_sync_example =
    subscribe_out_of_sync files_refine 10002 news over_locked locked_table (ground arith)
      (record { alive = refl; represents = locked-Represents }) (λ t k. refl) (ground arith) refl
